-- ===== src/Session/Aliases.antt =====
-- internal/session/aliases.go: the keys that the remote side has declared under a number. The lock is the
-- order of the calls.
use zenoh_go_client.Prelude.{
  ℕ, ◌≡◌, refl, true, false, [], ◌++◌, Option, none, some, ◌==◌, if◌then◌else◌, Bool-cases,
  Option-cases, inl, inr, arith,
}
use zenoh_go_client.Codec.Types.{Bytes}
use zenoh_go_client.Wire.Values.{WireExpr}

pub record RemoteAliases : Type 0 where
  pub by_id : ℕ → Option Bytes

unfoldable pub no_aliases : RemoteAliases
no_aliases = record { by_id = λ id. none }

abbrev bind : RemoteAliases → ℕ → Option Bytes → RemoteAliases
bind t id key = record { by_id = λ i. if i == id then key else t.by_id i }

-- The base of an alias: an unknown one counts as empty.
abbrev base_of : Option Bytes → Bytes
base_of none = []
base_of (some base) = base

unfoldable pub declare_remote_alias : RemoteAliases → ℕ → ℕ → Bytes → RemoteAliases
declare_remote_alias t expr_id scope suffix =
    if scope == 0
    then bind t expr_id (some suffix)
    else bind t expr_id (some (base_of (t.by_id scope) ++ suffix))

unfoldable pub undeclare_remote_alias : RemoteAliases → ℕ → RemoteAliases
undeclare_remote_alias t expr_id = bind t expr_id none

unfoldable pub reset_remote_aliases : RemoteAliases → RemoteAliases
reset_remote_aliases t = no_aliases

abbrev extended : Option Bytes → Bytes → Option Bytes
extended none suffix = none
extended (some base) suffix = some (base ++ suffix)

unfoldable pub resolve_remote_key : RemoteAliases → WireExpr → Option Bytes
resolve_remote_key t we =
    if we.scope == 0 then some we.suffix else extended (t.by_id we.scope) we.suffix

-- A reference without a mapping: a number and what follows its key.
abbrev pub reference : ℕ → Bytes → WireExpr
reference scope suffix = record { scope = scope; suffix = suffix; mapping = false }

abbrev pub or_else : Option Bytes → Bytes → Bytes
or_else none key = key
or_else (some key) key' = key

same_number : (i : ℕ) → (i == i) ≡ true
same_number i = ground arith

-- Below a declared number, other than zero, stands the key that the declaration itself resolved to
-- then, or its bare suffix where that did not resolve; every other reference resolves as before.
pub resolve_remote_key-declare_remote_alias :
    (t : RemoteAliases) (id scope : ℕ) (suffix x : Bytes) (other : WireExpr)
    → (id == 0) ≡ false
    → (other.scope == id) ≡ false
    → (resolve_remote_key (declare_remote_alias t id scope suffix) (reference id x)
        ≡ some (or_else (resolve_remote_key t (reference scope suffix)) suffix ++ x))
      × (resolve_remote_key (declare_remote_alias t id scope suffix) other
          ≡ resolve_remote_key t other)
unfolding resolve_remote_key declare_remote_alias
resolve_remote_key-declare_remote_alias t id scope suffix x other some_id differ =
    elim (Bool-cases (scope == 0)) [
      | inl e ↦ rw (some_id, e, same_number id, differ) (refl, refl)
      | inr e ↦ elim (Option-cases (t.by_id scope)) [
        | inl unknown ↦ rw (some_id, e, same_number id, differ, unknown) (refl, refl)
        | inr (base, known) ↦ rw (some_id, e, same_number id, differ, known) (refl, refl)
      ]
    ]

-- Retracting a number other than zero ends its references; every other reference resolves as
-- before.
pub resolve_remote_key-undeclare_remote_alias :
    (t : RemoteAliases) (id : ℕ) (x : Bytes) (other : WireExpr)
    → (id == 0) ≡ false
    → (other.scope == id) ≡ false
    → (resolve_remote_key (undeclare_remote_alias t id) (reference id x) ≡ none)
      × (resolve_remote_key (undeclare_remote_alias t id) other ≡ resolve_remote_key t other)
unfolding resolve_remote_key undeclare_remote_alias
resolve_remote_key-undeclare_remote_alias t id x other some_id differ =
    rw (some_id, same_number id, differ) (refl, refl)
