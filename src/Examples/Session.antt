-- ===== src/Examples/Session.antt =====
-- internal/session: each theorem at an input.
use zenoh_go_client.Prelude.{◌≡◌, refl, [], ◌∷◌, ◌++◌, some}
use zenoh_go_client.Session.Aliases.{
  RemoteAliases, no_aliases, declare_remote_alias, undeclare_remote_alias, resolve_remote_key,
  reference, or_else, resolve_remote_key-declare_remote_alias,
}

-- The number 1 stands for `a`.
abbrev declared : RemoteAliases
declared = declare_remote_alias no_aliases 1 0 (b'a' ∷ [])

resolve_remote_key-declare_remote_alias_example :
    (resolve_remote_key (declare_remote_alias declared 2 1 (b'/' ∷ [])) (reference 2 (b'b' ∷ []))
      ≡ some (
          or_else (resolve_remote_key declared (reference 1 (b'/' ∷ []))) (b'/' ∷ [])
          ++ (b'b' ∷ [])))
    × (resolve_remote_key (declare_remote_alias declared 2 1 (b'/' ∷ [])) (reference 1 [])
        ≡ resolve_remote_key declared (reference 1 []))
resolve_remote_key-declare_remote_alias_example =
    resolve_remote_key-declare_remote_alias declared 2 1 (b'/' ∷ []) (b'b' ∷ []) (reference 1 [])
      refl refl

-- The key of an alias outlives its base.
snapshot :
    resolve_remote_key
      (undeclare_remote_alias (declare_remote_alias declared 2 1 (b'/' ∷ [])) 1)
      (reference 2 (b'b' ∷ []))
    ≡ some (b'a' ∷ b'/' ∷ b'b' ∷ [])
unfolding resolve_remote_key undeclare_remote_alias declare_remote_alias no_aliases
snapshot = refl
