-- ===== src/Policy/Choice.antt =====
-- The cipher that `_guess_wire_crypt` picks.
use firebirdsql_go.Base.{
  ℕ, ◌+◌, ◌≡◌, sym, ap, ◌∙◌, subst, some_injective, append-nil, take-append-drop, refl, arith, ◌⊎◌,
  inl, inr, Bool, true, false, none, some, List, [], ◌∷◌, ◌++◌, length, length-take, length-drop,
  take, drop, ltb, bytes_eq, bytes_eq_iff, All, Bool-cases, Option-cases, ◌||◌,
}
use firebirdsql_go.Texts.{contains}
use firebirdsql_go.Policy.{
  Offer, Cipher, no_cipher, no_offer, chacha64, chacha, arc4, chacha64_nonce, chacha_nonce,
  try_plugin, choose, guess_wire_crypt,
}
use firebirdsql_go.Policy.Records.{
  Has, Named, HasNonce, records_bytes, IsCut, note_all, scan_offer_lem, plugins_from, nonces_from,
}

-- A nonce of the right form for each cipher.
abbrev pub NonceFits : Cipher → Type 0
NonceFits c =
    ((c.name ≡ chacha64) × ((iv : List ℕ) × (c.nonce ≡ some iv)))
    ⊎ ((c.name ≡ chacha) × ((iv : List ℕ) × (c.nonce ≡ some iv) × (length iv ≡ 12)))
    ⊎ ((c.name ≡ arc4) × (c.nonce ≡ none))

chacha_nonce-length :
    (ns : List (List ℕ)) (iv : List ℕ) → chacha_nonce ns ≡ some iv → length iv ≡ 12
unfolding chacha_nonce
chacha_nonce-length [] iv h = cc
chacha_nonce-length (n ∷ ns) iv h =
    ground (arith, chacha_nonce-length ns iv, length-take 12 (drop 7 n), length-drop 7 n)

-- A value that begins with the cipher's name, a zero and the nonce.
abbrev pub Carries : List ℕ → List ℕ → List ℕ → Type 0
Carries name iv n = (more : List ℕ) × (n ≡ (name ++ 0 ∷ []) ++ (iv ++ more))

chacha64_nonce-Has :
    (ns : List (List ℕ)) (iv : List ℕ) → chacha64_nonce ns ≡ some iv → Has (Carries chacha64 iv) ns
unfolding chacha64_nonce
chacha64_nonce-Has [] iv h = cc h
chacha64_nonce-Has (n ∷ ns) iv h = elim (Bool-cases (ltb (length n) 9)) [
  | inl short ↦ inr (chacha64_nonce-Has ns iv (rw short at h))
  | inr long ↦ elim (Bool-cases (bytes_eq (take 9 n) (chacha64 ++ 0 ∷ []))) [
    | inl same ↦
        let found : some (drop 9 n) ≡ some iv = rw (long, same) at h in
        inl (
          [],
          sym (take-append-drop 9 n)
              ∙ ap (λ p. p ++ drop 9 n) ((bytes_eq_iff (take 9 n) (chacha64 ++ 0 ∷ [])).0 same)
              ∙ ap (λ d. (chacha64 ++ 0 ∷ []) ++ d) (some_injective found ∙ sym (append-nil iv)),
        )
    | inr other ↦ inr (chacha64_nonce-Has ns iv (rw (long, other) at h))
  ]
]

chacha_nonce-Has :
    (ns : List (List ℕ)) (iv : List ℕ) → chacha_nonce ns ≡ some iv → Has (Carries chacha iv) ns
unfolding chacha_nonce
chacha_nonce-Has [] iv h = cc h
chacha_nonce-Has (n ∷ ns) iv h = elim (Bool-cases (ltb (length n) (7 + 12))) [
  | inl short ↦ inr (chacha_nonce-Has ns iv (rw short at h))
  | inr long ↦ elim (Bool-cases (bytes_eq (take 7 n) (chacha ++ 0 ∷ []))) [
    | inl same ↦
        let found : some (take 12 (drop 7 n)) ≡ some iv = rw (long, same) at h in
        inl (
          drop 12 (drop 7 n),
          sym (take-append-drop 7 n)
              ∙ ap (λ p. p ++ drop 7 n) ((bytes_eq_iff (take 7 n) (chacha ++ 0 ∷ [])).0 same)
              ∙ ap (λ d. (chacha ++ 0 ∷ []) ++ d)
                  (sym (take-append-drop 12 (drop 7 n))
                    ∙ ap (λ s. s ++ drop 12 (drop 7 n)) (some_injective found)),
        )
    | inr other ↦ inr (chacha_nonce-Has ns iv (rw (long, other) at h))
  ]
]

-- The nonce of a cipher is one of those that were sent for it.
abbrev FromNonces : List (List ℕ) → Cipher → Type 0
FromNonces ns c = (iv : List ℕ) → c.nonce ≡ some iv → Has (Carries c.name iv) ns

-- What the loop's body returns is the plugin that it looks at, offered, with a nonce for it.
pub try_plugin_lem :
    (o : Offer) (p : List ℕ) (c : Cipher)
    → try_plugin o p ≡ some c
    → (c.name ≡ p) × (contains o.plugins p ≡ true) × NonceFits c × FromNonces o.nonces c
unfolding try_plugin
try_plugin_lem o p c h = elim (Bool-cases (contains o.plugins p)) [
  | inr absent ↦ cc (rw (absent, try_plugin) at h)
  | inl offered ↦ elim (Bool-cases (bytes_eq p chacha64)) [
    | inl is64 ↦ elim (Option-cases (chacha64_nonce o.nonces)) [
      | inl missing ↦ cc (rw (offered, is64, missing) at h)
      | inr (iv, found) ↦
          let e : some (record { name = chacha64; nonce = some iv }) ≡ some c =
            rw (offered, is64, found) at h in
          (
            cc (e, (bytes_eq_iff p chacha64).0 is64),
            offered,
            inl (cc e, (iv, cc e)),
            subst (FromNonces o.nonces) (some_injective e)
                (λ jv same. chacha64_nonce-Has o.nonces jv (found ∙ same)),
          )
    ]
    | inr not64 ↦ elim (Bool-cases (bytes_eq p chacha)) [
      | inl plain ↦ elim (Option-cases (chacha_nonce o.nonces)) [
        | inl missing ↦ cc (rw (offered, not64, plain, missing) at h)
        | inr (iv, found) ↦
            let e : some (record { name = chacha; nonce = some iv }) ≡ some c =
              rw (offered, not64, plain, found) at h in
            (
              cc (e, (bytes_eq_iff p chacha).0 plain),
              offered,
              inr (inl (cc e, (iv, cc e, chacha_nonce-length o.nonces iv found))),
              subst (FromNonces o.nonces) (some_injective e)
                  (λ jv same. chacha_nonce-Has o.nonces jv (found ∙ same)),
            )
      ]
      | inr other ↦ elim (Bool-cases (bytes_eq p arc4)) [
        | inl rc4 ↦
            let e : some (record { name = arc4; nonce = none }) ≡ some c =
              rw (offered, not64, other, rc4) at h in
            (
              cc (e, (bytes_eq_iff p arc4).0 rc4),
              offered,
              inr (inr (cc e, cc e)),
              subst (FromNonces o.nonces) (some_injective e) (λ jv same. cc same),
            )
        | inr unknown ↦ cc (rw (offered, not64, other, unknown) at h)
      ]
    ]
  ]
]

choose_lem :
    (o : Offer) (ps : List (List ℕ))
    → (choose o ps ≡ no_cipher)
      ⊎ ((contains ps (choose o ps).name ≡ true)
          × (contains o.plugins (choose o ps).name ≡ true)
          × NonceFits (choose o ps)
          × FromNonces o.nonces (choose o ps))
unfolding choose contains
choose_lem o [] = inl refl
choose_lem o (p ∷ ps) = elim (Option-cases (try_plugin o p)) [
  | inr (c, e) ↦
      let (named, offered, fits, sent) = try_plugin_lem o p c e in
      rw e (inr (rw (named, (bytes_eq_iff p p).1 refl), rw named offered, fits, sent))
  | inl e ↦ elim (choose_lem o ps) [
    | inl nothing ↦ rw e (inl nothing)
    | inr (listed, offered, fits, sent) ↦
        rw e (inr (rw listed (or_true (bytes_eq p _)), offered, fits, sent))
  ]
]
  where
    or_true : (b : Bool) → b || true ≡ true
    or_true true = refl
    or_true false = refl

-- A cipher that the server offered: named, and with a nonce that was sent for it, if it has one.
abbrev pub Offers : List (ℕ × List ℕ) → Cipher → Type 0
Offers rs c =
    Named rs c.name × ((iv : List ℕ) → c.nonce ≡ some iv → HasNonce (Carries c.name iv) rs)

offered_by :
    (rs : List (ℕ × List ℕ)) (c : Cipher)
    → contains (note_all rs no_offer).plugins c.name ≡ true
    → FromNonces (note_all rs no_offer).nonces c
    → Offers rs c
unfolding contains
offered_by rs c named sent = (
  elim (plugins_from rs no_offer c.name named) [ inl (h, _) ↦ cc h | inr n ↦ n ],
  λ iv e. elim (nonces_from (Carries c.name iv) rs no_offer (sent iv e)) [
    | inl h ↦ absurd h
    | inr n ↦ n
  ],
)

pub guess_wire_crypt_sound :
    (buf : List ℕ) (client_plugins : List (List ℕ))
    → (rs : List (ℕ × List ℕ)) × (cut : List ℕ) × (c : Cipher) × (buf ≡ records_bytes rs ++ cut)
      × IsCut cut
      × (guess_wire_crypt buf client_plugins ≡ some c)
      × ((c ≡ no_cipher) ⊎ ((contains client_plugins c.name ≡ true) × NonceFits c × Offers rs c))
unfolding guess_wire_crypt
guess_wire_crypt_sound buf client_plugins =
    let (rs, cut, e, is_cut, s) = scan_offer_lem (length buf) buf no_offer (omega arith) in
    let o = note_all rs no_offer in
    (
      rs,
      cut,
      choose o client_plugins,
      e,
      is_cut,
      rw s refl,
      elim (choose_lem o client_plugins) [
        | inl nothing ↦ inl nothing
        | inr (listed, offered, fits, sent) ↦
            inr (listed, fits, offered_by rs (choose o client_plugins) offered sent)
      ],
    )

-- The client's order decides: of the plugins that can be used the first one is taken, whatever the
-- order in which the server names them.
choose_first :
    (o : Offer) (front back : List (List ℕ)) (p : List ℕ) (c : Cipher)
    → All (λ q. try_plugin o q ≡ none) front
    → try_plugin o p ≡ some c
    → (choose o (front ++ p ∷ back) ≡ c) × (c.name ≡ p)
unfolding choose
choose_first o [] back p c h e = (rw e, (try_plugin_lem o p c e).0)
choose_first o (q ∷ front) back p c h e =
    let (first, named) = choose_first o front back p c h.1 e in (rw h.0 first, named)
