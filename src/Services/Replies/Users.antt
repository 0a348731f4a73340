-- ===== src/Services/Replies/Users.antt =====
-- The list of users as a server streams it, read back by the loop of `GetUsers`.
use firebirdsql_go.Base.{
  ℕ, suc, ◌+◌, ◌-◌, ◌*◌, ◌^◌, ◌≤◌, ◌<◌, ◌≡◌, refl, ◌∙◌, ap, sym, arith, ℤ, pos, Bool, true, false,
  none, some, List, [], ◌∷◌, ◌++◌, map, append-nil, append_assoc, length, length-append, leb, All,
  IsI32, if◌then◌else◌,
}
use firebirdsql_go.Bytes.{int32_to_bytes}
use firebirdsql_go.Xpb.{XpbReader, Read, new_reader, next, get_string, get_int32}
use firebirdsql_go.Xpb.RoundTrip.{
  between, next-between, get_int32-between, get_string-between, string_bytes,
}
use firebirdsql_go.Services.Users.{User}
use firebirdsql_go.Services.Backup.{is_positive}
use firebirdsql_go.Services.Info.{value}
use firebirdsql_go.Services.Info.Stream.{buffer_len}
use firebirdsql_go.Services.Info.Chunks.{Piece, FitsChunk, pieces, responses, wait_buffer-responses}
use firebirdsql_go.Services.Replies.{
  concat, get_users, Turn, go, loop, mapped, Listing, start_user, user_field, user_step, no_users,
  all_users, parse_users,
}

module _ {S : Type 0} (step : ℕ → S → XpbReader → Read (Turn S)) where
  loop_string :
      (n t : ℕ) (s : S) (k : List ℕ → S) (front back v : List ℕ)
      → ((r : XpbReader) → step t s r ≡ mapped (λ v. go (k v)) (get_string r))
      → length v < 2 ^ 15
      → loop step (suc n) s (between front (t ∷ (string_bytes v ++ back)))
        ≡ loop step n (k v) (between ((front ++ t ∷ []) ++ string_bytes v) back)
  unfolding loop
  loop_string n t s k front back v h fits = rw (
    loop,
    next-between front t (string_bytes v ++ back),
    h (between (front ++ t ∷ []) (string_bytes v ++ back)),
    get_string-between (front ++ t ∷ []) back v fits,
  )

  loop_int32 :
      (n t : ℕ) (s : S) (k : ℤ → S) (front back : List ℕ) (z : ℤ)
      → ((r : XpbReader) → step t s r ≡ mapped (λ v. go (k v)) (get_int32 r))
      → IsI32 z
      → loop step (suc n) s (between front (t ∷ (int32_to_bytes z ++ back)))
        ≡ loop step n (k z) (between ((front ++ t ∷ []) ++ int32_to_bytes z) back)
  unfolding loop
  loop_int32 n t s k front back z h fits = rw (
    loop,
    next-between front t (int32_to_bytes z ++ back),
    h (between (front ++ t ∷ []) (int32_to_bytes z ++ back)),
    get_int32-between (front ++ t ∷ []) back z fits,
  )

  loop_end :
      (n : ℕ) (s : S) (front : List ℕ)
      → loop step (suc n) s (between front []) ≡ some (between front [], s)
  unfolding loop next
  loop_end n s front = rw (loop, next, append-nil, at_end (length front))
    where
      at_end : (n : ℕ) → leb n n ≡ true
      at_end n = ground arith

-- A user as a server lists it.
pub record Listed : Type 0 where
  pub name : List ℕ
  pub first : List ℕ
  pub middle : List ℕ
  pub last : List ℕ
  pub uid : ℤ
  pub gid : ℤ
  pub is_admin : Bool

abbrev pub admin_number : Bool → ℤ
admin_number b = pos (if b then 1 else 0)

-- The tags are those of consts.go: 7 the name, 10 to 12 the others, 5 and 6 the numbers, 13 the flag.
abbrev pub listed_bytes : Listed → List ℕ → List ℕ
listed_bytes u back =
    7
    ∷ (string_bytes u.name
        ++ (10
            ∷ (string_bytes u.first
                ++ (11
                    ∷ (string_bytes u.middle
                        ++ (12
                            ∷ (string_bytes u.last
                                ++ (5
                                    ∷ (int32_to_bytes u.uid
                                        ++ (6
                                            ∷ (int32_to_bytes u.gid
                                                ++ (13
                                                    ∷ (int32_to_bytes (admin_number u.is_admin)
                                                        ++ back)))))))))))))

abbrev pub stream : List Listed → List ℕ
stream [] = []
stream (u ∷ us) = listed_bytes u (stream us)

pub record FitsListed (u : Listed) : Type 0 where
  pub name_fits : length u.name < 2 ^ 15
  pub first_fits : length u.first < 2 ^ 15
  pub middle_fits : length u.middle < 2 ^ 15
  pub last_fits : length u.last < 2 ^ 15
  pub uid_fits : IsI32 u.uid
  pub gid_fits : IsI32 u.gid

-- The user that a listed one is to the caller. The password does not come.
abbrev pub to_user : Listed → User
to_user u = record {
  username = some u.name;
  password = none;
  first_name = some u.first;
  middle_name = some u.middle;
  last_name = some u.last;
  user_id = u.uid;
  group_id = u.gid;
  admin = some u.is_admin;
}

abbrev opened : Listing → Listed → Listing
opened l u = record l { users = all_users l; user = some (to_user u) }

flag_fits : (b : Bool) → IsI32 (admin_number b)
flag_fits true = omega arith
flag_fits false = omega arith

flag_reads : (b : Bool) → is_positive (admin_number b) ≡ b
flag_reads true = refl
flag_reads false = refl

-- Behind a tag and its value, and behind a user.
abbrev over : List ℕ → ℕ → List ℕ → List ℕ
over front t bytes = (front ++ t ∷ []) ++ bytes

abbrev passed : List ℕ → Listed → List ℕ
passed front u =
    let front = over front 7 (string_bytes u.name) in
    let front = over front 10 (string_bytes u.first) in
    let front = over front 11 (string_bytes u.middle) in
    let front = over front 12 (string_bytes u.last) in
    let front = over front 5 (int32_to_bytes u.uid) in
    let front = over front 6 (int32_to_bytes u.gid) in
    over front 13 (int32_to_bytes (admin_number u.is_admin))

one_user :
    (n : ℕ) (l : Listing) (u : Listed) (front back : List ℕ)
    → FitsListed u
    → (front' : List ℕ) × (loop user_step
          (suc (suc (suc (suc (suc (suc (suc n)))))))
          l
          (between front (listed_bytes u back))
        ≡ loop user_step n (opened l u) (between front' back))
unfolding user_step user_field
one_user n l u front back h = (
  passed front u,
  loop_string user_step _ 7 l (start_user l) front _ u.name (λ r. refl) h.name_fits
      ∙ loop_string user_step _ 10 _ _ _ _ u.first (λ r. refl) h.first_fits
      ∙ loop_string user_step _ 11 _ _ _ _ u.middle (λ r. refl) h.middle_fits
      ∙ loop_string user_step _ 12 _ _ _ _ u.last (λ r. refl) h.last_fits
      ∙ loop_int32 user_step _ 5 _ _ _ _ u.uid (λ r. refl) h.uid_fits
      ∙ loop_int32 user_step _ 6 _ _ _ _ u.gid (λ r. refl) h.gid_fits
      ∙ loop_int32 user_step _ 13 _ _ _ _ (admin_number u.is_admin) (λ r. refl)
          (flag_fits u.is_admin)
      ∙ ap
          (λ b.
            loop user_step n
              (record (opened l u) { user = some (record (to_user u) { admin = some b }) })
              (between (passed front u) back))
          (flag_reads u.is_admin),
)

-- Seven rounds for each user.
abbrev rounds : List Listed → ℕ → ℕ
rounds [] n = n
rounds (u ∷ us) n = suc (suc (suc (suc (suc (suc (suc (rounds us n)))))))

rounds_lem : (us : List Listed) (n : ℕ) → rounds us n ≡ 7 * length us + n
rounds_lem [] n = omega arith
rounds_lem (u ∷ us) n = omega (arith, rounds_lem us n)

behind : (n t : ℕ) (bytes back : List ℕ) → n ≤ length back → suc n ≤ length (t ∷ (bytes ++ back))
behind n t bytes back h = omega (arith, length-append bytes back)

length-listed_bytes : (u : Listed) (back : List ℕ) → 7 + length back ≤ length (listed_bytes u back)
length-listed_bytes u back =
    let h : suc (suc (suc (suc (suc (suc (suc (length back))))))) ≤ length (listed_bytes u back) =
      behind _ 7 (string_bytes u.name) _ (
        behind _ 10 (string_bytes u.first) _ (
          behind _ 11 (string_bytes u.middle) _ (
            behind _ 12 (string_bytes u.last) _ (
              behind _ 5 (int32_to_bytes u.uid) _ (
                behind _ 6 (int32_to_bytes u.gid) _ (
                  behind _ 13 (int32_to_bytes (admin_number u.is_admin)) back (omega arith))))))) in
    omega arith

enough : (us : List Listed) → 7 * length us ≤ length (stream us)
enough [] = omega arith
enough (u ∷ us) = omega (arith, enough us, length-listed_bytes u (stream us))

abbrev listing : Listing → List Listed → Listing
listing l [] = l
listing l (u ∷ us) = listing (opened l u) us

loop-stream :
    (us : List Listed) (n : ℕ) (l : Listing) (front : List ℕ)
    → All FitsListed us
    → (r : XpbReader) × (loop user_step (rounds us (suc n)) l (between front (stream us))
        ≡ some (r, listing l us))
      × (r.err ≡ none)
loop-stream [] n l front h = (between front [], loop_end user_step n l front, refl)
loop-stream (u ∷ us) n l front h =
    let (front', e) = one_user (rounds us (suc n)) l u front (stream us) h.0 in
    let (r, d, g) = loop-stream us n (opened l u) front' h.1 in (r, e ∙ d, g)

listing_users :
    (l : Listing) (us : List Listed)
    → l.early ≡ none
    → ((listing l us).early ≡ none) × (all_users (listing l us) ≡ all_users l ++ map to_user us)
listing_users l [] h = (h, sym (append-nil (all_users l)))
listing_users l (u ∷ us) h =
    let (a, b) = listing_users (opened l u) us h in
    (a, b ∙ append_assoc (all_users l) (to_user u ∷ []) (map to_user us))

parse_users-stream :
    (us : List Listed) → All FitsListed us → parse_users (stream us) ≡ some (value (map to_user us))
unfolding parse_users new_reader
parse_users-stream us h =
    let n = length (stream us) - 7 * length us in
    let (r, e, g) = loop-stream us n no_users [] h in
    let (a, b) = listing_users no_users us refl in rw (parse_users, fuel, e, a, g, b)
  where
    fuel : length (stream us) + 1 ≡ rounds us (suc (length (stream us) - 7 * length us))
    fuel = omega (arith, enough us, rounds_lem us (suc (length (stream us) - 7 * length us)))

-- However the server cuts its list of users into pieces, also within a field, and whatever
-- timeouts come between them, GetUsers returns exactly these users, in their order. The pieces
-- have 1 to 65535 bytes, the texts are shorter than 2 ^ 15, and the numbers are int32.
pub get_users-responses :
    (ps : List Piece) (us : List Listed)
    → All FitsChunk ps
    → All FitsListed us
    → concat (pieces ps) ≡ stream us
    → get_users (responses ps) ≡ some (value (map to_user us))
unfolding get_users
get_users-responses ps us fits listed whole =
    let e = wait_buffer-responses ps buffer_len fits in
    rw (get_users, e, e, whole) (parse_users-stream us listed)
