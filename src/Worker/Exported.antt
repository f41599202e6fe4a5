-- ===== src/Worker/Exported.antt =====
-- From the request for an export to its download: Exports and Worker together.
use mathlib.Core.List.{Perm}
use mathlib.Core.List.Perm
use elydora_open_source.Prelude.{◌≡◌, refl, some, List}
use elydora_open_source.Prelude.Texts.{Text, eq_refl}
use elydora_open_source.Model.World.{World, Document, Stored, evidence_get, evidence_put}

pub get-put :
    (key : Text) (d : Document) (ss : List Stored)
    → evidence_get key (evidence_put key d ss) ≡ some d
unfolding evidence_get evidence_put
get-put key d ss = rw (eq_refl key) refl
