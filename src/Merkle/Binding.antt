-- ===== src/Merkle/Binding.antt =====
-- Proofs of utils/merkle.ts bind: two that verify for one root at one place prove one leaf.
use elydora_open_source.Prelude.{ℕ, ◌≡◌, ◌≢◌, ◌⊎◌, some, List, length, All}
use elydora_open_source.Prelude.Texts.{Text}
use elydora_open_source.Crypto.Base64.{base64url_decode}
use elydora_open_source.Crypto.Base64.RoundTrip.{IsByte}

-- Two messages with one digest.
pub record Collision (digest : List ℕ → List ℕ) : Type 0 where
  pub one : List ℕ
  pub other : List ℕ
  pub distinct : one ≢ other
  pub collide : digest one ≡ digest other

-- Texts that decode to byte strings of one length, as hashes do.
pub record SameWidth (x y : Text) : Type 0 where
  pub bytes_x : List ℕ
  pub bytes_y : List ℕ
  pub decodes_x : base64url_decode x ≡ some bytes_x
  pub decodes_y : base64url_decode y ≡ some bytes_y
  pub width : length bytes_x ≡ length bytes_y

module _ (digest : List ℕ → List ℕ) (digest-bytes : (m : List ℕ) → All IsByte (digest m))
    (digest-width : (m : List ℕ) → length (digest m) ≡ 32) where
  -- What equal parents say of the nodes below.
  abbrev Binds : (x y nx ny : Text) → Type 0
  Binds x y nx ny =
      SameWidth nx ny
      × (base64url_decode nx ≡ base64url_decode ny
          → (base64url_decode x ≡ base64url_decode y) ⊎ Collision digest)
