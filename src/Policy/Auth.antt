-- ===== src/Policy/Auth.antt =====
-- The authentication plugins: what `validateAuthPlugins` lets through.
use firebirdsql_go.Base.{
  ℕ, ◌≡◌, refl, arith, ◌⊎◌, inl, inr, true, false, none, List, [], ◌∷◌, bytes_eq, bytes_eq_iff,
  bytes_of, length, Bool-cases, ◌==◌, All,
}
use firebirdsql_go.Texts.{contains, split_list}
use firebirdsql_go.Policy.{
  default_auth_plugins, is_auth_plugin_allowed, all_supported, validate_auth_plugins,
}

-- The plugins that the driver implements: the branches of `uid` that do not panic.
abbrev pub IsImplemented : List ℕ → Type 0
IsImplemented p = (p ≡ bytes_of "Srp256") ⊎ (p ≡ bytes_of "Srp") ⊎ (p ≡ bytes_of "Legacy_Auth")

supported_plugins :
    split_list default_auth_plugins
    ≡ bytes_of "Srp256" ∷ bytes_of "Srp" ∷ bytes_of "Legacy_Auth" ∷ []
unfolding split_list
supported_plugins = refl

supported_lem : (p : List ℕ) → contains (split_list default_auth_plugins) p ≡ true → IsImplemented p
unfolding contains
supported_lem p h = go p (rw supported_plugins at h)
  where
    go :
        (p : List ℕ)
        → contains (bytes_of "Srp256" ∷ bytes_of "Srp" ∷ bytes_of "Legacy_Auth" ∷ []) p ≡ true
        → IsImplemented p
    go p h = ground (
      arith,
      (bytes_eq_iff (bytes_of "Srp256") p).0,
      (bytes_eq_iff (bytes_of "Srp") p).0,
      (bytes_eq_iff (bytes_of "Legacy_Auth") p).0,
    )

all_supported_lem :
    (ps : List (List ℕ))
    → all_supported (split_list default_auth_plugins) ps ≡ true
    → (p : List ℕ) → contains ps p ≡ true
    → IsImplemented p
unfolding all_supported contains
all_supported_lem [] h p k = cc
all_supported_lem (q ∷ qs) h p k =
    elim (Bool-cases (contains (split_list default_auth_plugins) q)) [
      | inr foreign ↦ cc (rw foreign at h)
      | inl known ↦ elim (Bool-cases (bytes_eq q p)) [
        | inl same ↦ rw (← (bytes_eq_iff q p).0 same) (supported_lem q known)
        | inr other ↦ all_supported_lem qs (rw known at h) p (rw other at k)
      ]
    ]

validate_parts :
    (name plugins : List ℕ)
    → validate_auth_plugins name plugins ≡ none
    → (all_supported (split_list default_auth_plugins) (split_list plugins) ≡ true)
      × (contains (split_list plugins) name ≡ true)
unfolding validate_auth_plugins
validate_parts name plugins h = ground arith

-- A configuration that passes the check before the handshake has its preferred plugin in its
-- allow-list, and that plugin, like every one that a server can then select past the allow-list, is
-- one that the driver implements.
validate_auth_plugins_sound :
    (name plugins selected : List ℕ)
    → validate_auth_plugins name plugins ≡ none
    → is_auth_plugin_allowed selected plugins ≡ true
    → (is_auth_plugin_allowed name plugins ≡ true) × IsImplemented name × IsImplemented selected
unfolding is_auth_plugin_allowed
validate_auth_plugins_sound name plugins selected h k =
    let (every, listed) = validate_parts name plugins h in
    (
      listed,
      all_supported_lem (split_list plugins) every name listed,
      all_supported_lem (split_list plugins) every selected k,
    )

known : (p : List ℕ) → IsImplemented p → contains (split_list default_auth_plugins) p ≡ true
unfolding contains bytes_eq split_list
known p (inl e) = rw e
known p (inr (inl e)) = rw e
known p (inr (inr e)) = rw e

all_supported_complete :
    (ps : List (List ℕ))
    → All IsImplemented ps
    → all_supported (split_list default_auth_plugins) ps ≡ true
unfolding all_supported contains
all_supported_complete [] h = refl
all_supported_complete (p ∷ ps) h = rw (known p h.0, all_supported_complete ps h.1)

not_empty : (ps : List (List ℕ)) (p : List ℕ) → contains ps p ≡ true → (length ps == 0) ≡ false
unfolding contains
not_empty [] p h = cc
not_empty (q ∷ qs) p h = ground arith

-- A list of implemented plugins that has the preferred one among them is accepted.
validate_auth_plugins_complete :
    (name plugins : List ℕ)
    → All IsImplemented (split_list plugins)
    → is_auth_plugin_allowed name plugins ≡ true
    → validate_auth_plugins name plugins ≡ none
unfolding validate_auth_plugins is_auth_plugin_allowed
validate_auth_plugins_complete name plugins h k =
    rw (not_empty (split_list plugins) name k, all_supported_complete (split_list plugins) h, k)
