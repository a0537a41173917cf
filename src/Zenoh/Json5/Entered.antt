-- ===== src/Zenoh/Json5/Entered.antt =====
-- zenoh/json5.go: fields with distinct keys that are entered into a map.
use zenoh_go_client.Prelude.{◌≡◌, refl, sym, ap, ◌∙◌, false, bytes_eq}
use zenoh_go_client.Prelude.Dict.{bytes_eq_comm}
use zenoh_go_client.Codec.Types.{Bytes}
use zenoh_go_client.Zenoh.Json5.{Json, Fields, no_fields, field}
use zenoh_go_client.Zenoh.Json5.Parser.{set_field}
use zenoh_go_client.Zenoh.Json5.Printer.{set_all, IsFresh, AreDistinct}

module _ {F : Type 0} where
  join_fields : Fields F → Fields F → Fields F
  join_fields no_fields gs = gs
  join_fields (field k v fs) gs = field k v (join_fields fs gs)

  -- The keys of the second are not in the first.
  abbrev AreFresh : Fields F → Fields F → Type 0
  AreFresh out no_fields = Unit
  AreFresh out (field k v fs) = IsFresh k out × AreFresh out fs

  set_field-fresh :
      (k : Bytes) (v : Json F) (out : Fields F)
      → IsFresh k out
      → set_field k v out ≡ join_fields out (field k v no_fields)
  unfolding set_field join_fields
  set_field-fresh k v no_fields h = refl
  set_field-fresh k v (field k' v' fs) (differ, h) =
      rw (differ) (ap (field k' v') (set_field-fresh k v fs h))

  IsFresh-join_fields :
      (k k' : Bytes) (v : Json F) (out : Fields F)
      → IsFresh k out
      → bytes_eq k k' ≡ false
      → IsFresh k (join_fields out (field k' v no_fields))
  unfolding join_fields
  IsFresh-join_fields k k' v no_fields h differ = (differ, tt)
  IsFresh-join_fields k k' v (field x w fs) (other, h) differ =
      (other, IsFresh-join_fields k k' v fs h differ)

  AreFresh-join_fields :
      (k : Bytes) (v : Json F) (out fs : Fields F)
      → AreFresh out fs
      → IsFresh k fs
      → AreFresh (join_fields out (field k v no_fields)) fs
  AreFresh-join_fields k v out no_fields h new = tt
  AreFresh-join_fields k v out (field x w fs) (h, hs) (differ, new) = (
    IsFresh-join_fields x k v out h (bytes_eq_comm x k ∙ differ),
    AreFresh-join_fields k v out fs hs new,
  )

  join_fields-field :
      (k : Bytes) (v : Json F) (out fs : Fields F)
      → join_fields (join_fields out (field k v no_fields)) fs ≡ join_fields out (field k v fs)
  unfolding join_fields
  join_fields-field k v no_fields fs = refl
  join_fields-field k v (field x w out) fs = ap (field x w) (join_fields-field k v out fs)

  join_fields-no_fields : (out : Fields F) → join_fields out no_fields ≡ out
  unfolding join_fields
  join_fields-no_fields no_fields = refl
  join_fields-no_fields (field k v out) = ap (field k v) (join_fields-no_fields out)

  set_all-join_fields :
      (out fs : Fields F) → AreFresh out fs → AreDistinct fs → set_all out fs ≡ join_fields out fs
  unfolding set_all
  set_all-join_fields out no_fields h d = sym (join_fields-no_fields out)
  set_all-join_fields out (field k v fs) (new, h) (apart, d) =
      ap (λ o. set_all o fs) (set_field-fresh k v out new)
      ∙ set_all-join_fields (join_fields out (field k v no_fields)) fs
          (AreFresh-join_fields k v out fs h apart) d
      ∙ join_fields-field k v out fs

  AreFresh-no_fields : (fs : Fields F) → AreFresh no_fields fs
  AreFresh-no_fields no_fields = tt
  AreFresh-no_fields (field k v fs) = (tt, AreFresh-no_fields fs)

  -- Entered one after the other, they stay as they are.
  pub set_all-AreDistinct : (fs : Fields F) → AreDistinct fs → set_all no_fields fs ≡ fs
  unfolding join_fields
  set_all-AreDistinct fs d = set_all-join_fields no_fields fs (AreFresh-no_fields fs) d
