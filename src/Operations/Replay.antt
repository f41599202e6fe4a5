-- ===== src/Operations/Replay.antt =====
-- Replay protection: the nonce test of submitOperation over time.
use elydora_open_source.Prelude.{
  ℕ, ◌+◌, ◌*◌, ◌<◌, ◌≤◌, ◌≡◌, refl, sym, ap, ◌∙◌, true, arith, ltb, All, List, [], false, some,
  ◌++◌, ◌∷◌,
}
use elydora_open_source.Prelude.Texts.{Text, codes, text_eq, eq_refl}
use elydora_open_source.Crypto.Platform.{Platform}
use elydora_open_source.Model.Errors.{Result, ok, error, coded, replay_detected}
use elydora_open_source.Model.Entities.{Eor}
use elydora_open_source.Model.World.{World, CacheEntry, cache_get, cache_put}
use elydora_open_source.Operations.Eor.{RawEor, validate_eor_fields}
use elydora_open_source.Operations.Submit.{
  Request, Pending, check_nonce, nonce_key, nonce_ttl_seconds, prepare,
}
use elydora_open_source.Operations.Prepared.{prepare-Prepared}

-- An entry that was put is there until it expires.
cache_get-put :
    (now later seconds : ℕ) (key value : Text) (w : World)
    → later < now + seconds * 1000
    → now ≤ later
    → cache_get later key (cache_put now key value seconds w.cache) ≡ some value
unfolding cache_get cache_put
cache_get-put now later seconds key value w h k =
    let positive : ltb 0 seconds ≡ true = ground arith in
    let live : ltb later (now + seconds * 1000) ≡ true = ground arith in
    rw (eq_refl key, positive, live) refl

-- An entry under another key
abbrev pub IsOther : Text → CacheEntry → Type 0
IsOther key c = text_eq c.key key ≡ false

cache_get-others :
    (now : ℕ) (key : Text) (others cs : List CacheEntry)
    → All (IsOther key) others
    → cache_get now key (others ++ cs) ≡ cache_get now key cs
unfolding cache_get
cache_get-others now key [] cs h = refl
cache_get-others now key (c ∷ others) cs (k, h) = rw k (cache_get-others now key others cs h)

check_nonce-replayed :
    (now : ℕ) (e : Eor) (value : Text) (w : World)
    → cache_get now (nonce_key e) w.cache ≡ some value
    → check_nonce now e w ≡ (error (coded 400 replay_detected), w)
unfolding check_nonce
check_nonce-replayed now e value w h = ground arith

ok-eq : (e d : Eor) → ◌≡◌ {A = Result Eor} (ok e) (ok d) → e ≡ d
ok-eq e d h = ground arith

nonce_key-eq : (d e : Eor) → d.org_id ≡ e.org_id → d.nonce ≡ e.nonce → nonce_key d ≡ nonce_key e
unfolding nonce_key
nonce_key-eq d e org nonce =
    ap (λ (o : Text). codes "nonce:" ++ (o ++ (b':' ∷ d.nonce))) org
    ∙ ap (λ (n : Text). codes "nonce:" ++ (e.org_id ++ (b':' ∷ n))) nonce

module _ (p : Platform) where
  prepare-replayed :
      (r : Request) (raw : RawEor) (e : Eor) (w : World)
      → validate_eor_fields raw r.received_at ≡ ok e
      → check_nonce r.received_at e w ≡ (error (coded 400 replay_detected), w)
      → prepare p r raw w ≡ (error (coded 400 replay_detected), w)
  unfolding prepare
  prepare-replayed r raw e w v c = rw (v, c) refl

  prepare-cache :
      (r : Request) (raw : RawEor) (w : World) (s : Pending) (e : Eor)
      → (prepare p r raw w).0 ≡ ok s
      → validate_eor_fields raw r.received_at ≡ ok e
      → (prepare p r raw w).1.cache
        ≡ cache_put r.received_at (nonce_key e) (codes "1") (nonce_ttl_seconds e) w.cache
  prepare-cache r raw w s e h v =
      let q = prepare-Prepared p r raw w s h in
      let same : q.eor ≡ e = ok-eq q.eor e (sym q.validated ∙ v) in
      ap (λ (z : World). z.cache) q.final
      ∙ ap
          (λ (d : Eor).
            cache_put r.received_at (nonce_key d) (codes "1") (nonce_ttl_seconds d) w.cache)
          same

  -- After a submission has passed its tests, another valid envelope of the same organization with
  -- the same nonce, which arrives later but before the ttl_ms of the first have passed since its
  -- arrival, is refused with REPLAY_DETECTED and changes nothing, whatever became of the database
  -- and the evidence, and whatever was put in the cache under other keys in between.
  pub replay_refused :
      (r q : Request) (raw raw' : RawEor) (w w' : World) (s : Pending) (e d : Eor)
      (others : List CacheEntry)
      → (prepare p r raw w).0 ≡ ok s
      → validate_eor_fields raw r.received_at ≡ ok e
      → validate_eor_fields raw' q.received_at ≡ ok d
      → d.org_id ≡ e.org_id
      → d.nonce ≡ e.nonce
      → All (IsOther (nonce_key e)) others
      → w'.cache ≡ others ++ (prepare p r raw w).1.cache
      → r.received_at ≤ q.received_at
      → q.received_at < r.received_at + e.ttl_ms
      → prepare p q raw' w' ≡ (error (coded 400 replay_detected), w')
  replay_refused r q raw raw' w w' s e d others h v v' org nonce apart cache after before =
      let same : nonce_key d ≡ nonce_key e = nonce_key-eq d e org nonce in
      let there : cache_get q.received_at (nonce_key d) w'.cache ≡ some (codes "1") =
        ap (λ (key : Text). cache_get q.received_at key w'.cache) same
        ∙ ap (cache_get q.received_at (nonce_key e)) cache
        ∙ cache_get-others q.received_at (nonce_key e) others (prepare p r raw w).1.cache apart
        ∙ ap (cache_get q.received_at (nonce_key e)) (prepare-cache r raw w s e h v)
        ∙ cache_get-put r.received_at q.received_at (nonce_ttl_seconds e) (nonce_key e) (codes "1")
            w (omega (arith, before)) after in
      prepare-replayed q raw' d w' v' (check_nonce-replayed q.received_at d (codes "1") w' there)
