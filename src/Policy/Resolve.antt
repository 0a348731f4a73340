-- ===== src/Policy/Resolve.antt =====
-- The policy on encryption against the outcome of the negotiation.
use firebirdsql_go.Base.{
  ℕ, ◌≡◌, ◌≢◌, refl, sym, ◌∙◌, subst, arith, inl, inr, Bool, true, false, none, some, List, [], ◌∷◌,
  bytes_eq, ◌↔◌,
}
use firebirdsql_go.Texts.{contains}
use firebirdsql_go.Policy.{
  WireCryptMode, disabled, enabled, required, wire_crypt_required, Cipher, guess_wire_crypt,
  wire_crypt_resolve,
}
use firebirdsql_go.Policy.Choice.{guess_wire_crypt_sound, NonceFits}

-- The decision table: the wire is encrypted exactly when a cipher and a session key are there and
-- the policy is not "disabled"; there is an error exactly when it is not and the policy is "required".
wire_crypt_resolve_table :
    (mode : WireCryptMode) (plugin : List ℕ) (key : Bool)
    → let (encrypt, err) = wire_crypt_resolve mode plugin key in
      ((encrypt ≡ true) ↔ ((plugin ≢ []) × (mode ≢ disabled) × (key ≡ true)))
      × ((err ≢ none) ↔ ((encrypt ≡ false) × (mode ≡ required)))
unfolding wire_crypt_resolve bytes_eq
wire_crypt_resolve_table disabled [] true =
    ((λ h. ground arith, λ h. ground arith), (λ h. ground arith, λ h. ground arith))
wire_crypt_resolve_table disabled [] false =
    ((λ h. ground arith, λ h. ground arith), (λ h. ground arith, λ h. ground arith))
wire_crypt_resolve_table disabled (c ∷ s) true =
    ((λ h. ground arith, λ h. ground arith), (λ h. ground arith, λ h. ground arith))
wire_crypt_resolve_table disabled (c ∷ s) false =
    ((λ h. ground arith, λ h. ground arith), (λ h. ground arith, λ h. ground arith))
wire_crypt_resolve_table enabled [] true =
    ((λ h. ground arith, λ h. ground arith), (λ h. ground arith, λ h. ground arith))
wire_crypt_resolve_table enabled [] false =
    ((λ h. ground arith, λ h. ground arith), (λ h. ground arith, λ h. ground arith))
wire_crypt_resolve_table enabled (c ∷ s) true =
    ((λ h. ground arith, λ h. ground arith), (λ h. ground arith, λ h. ground arith))
wire_crypt_resolve_table enabled (c ∷ s) false =
    ((λ h. ground arith, λ h. ground arith), (λ h. ground arith, λ h. ground arith))
wire_crypt_resolve_table required [] true =
    ((λ h. ground arith, λ h. ground arith), (λ h. ground arith, λ h. ground arith))
wire_crypt_resolve_table required [] false =
    ((λ h. ground arith, λ h. ground arith), (λ h. ground arith, λ h. ground arith))
wire_crypt_resolve_table required (c ∷ s) true =
    ((λ h. ground arith, λ h. ground arith), (λ h. ground arith, λ h. ground arith))
wire_crypt_resolve_table required (c ∷ s) false =
    ((λ h. ground arith, λ h. ground arith), (λ h. ground arith, λ h. ground arith))

-- Under "required" a connection that goes on is encrypted, by a cipher that stands in the client's
-- list and that the driver implements, whatever the server sent.
pub required_fails_closed :
    (buf : List ℕ) (client_plugins : List (List ℕ)) (key : Bool) (c : Cipher)
    → guess_wire_crypt buf client_plugins ≡ some c
    → (wire_crypt_resolve required c.name key).1 ≡ none
    → ((wire_crypt_resolve required c.name key).0 ≡ true)
      × (contains client_plugins c.name ≡ true)
      × NonceFits c
unfolding wire_crypt_resolve bytes_eq
required_fails_closed buf client_plugins key c guess quiet =
    let (rs, cut, d, split, is_cut, guessed, cases) = guess_wire_crypt_sound buf client_plugins in
    let same : d ≡ c = cc (guessed, guess) in
    elim cases [
      | inl nothing ↦ cc (no_cipher_is_error key, rw (sym same ∙ nothing) at quiet)
      | inr (listed, fits, offers) ↦
          (encrypted c.name key quiet, rw same at listed, subst NonceFits same fits)
    ]
  where
    no_cipher_is_error :
        (key : Bool) → (wire_crypt_resolve required [] key).1 ≡ some wire_crypt_required
    no_cipher_is_error true = refl
    no_cipher_is_error false = refl

    encrypted :
        (plugin : List ℕ) (key : Bool)
        → (wire_crypt_resolve required plugin key).1 ≡ none
        → (wire_crypt_resolve required plugin key).0 ≡ true
    encrypted plugin key h = ground arith
