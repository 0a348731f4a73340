-- ===== src/Packets/Attached.antt =====
-- What a server finds in the parameter block of an attachment.
use firebirdsql_go.Base.{
  ℕ, ◌-◌, ◌<◌, ◌||◌, ◌≡◌, refl, sym, ap, ◌∙◌, arith, pos, All, All-append, Bool, true, false,
  Bool-cases, inl, inr, Option, none, some, List, [], ◌∷◌, ◌++◌, length, drop, length-drop,
  append_assoc, append-nil, ltb, ltb_ℤ, ◌==◌, if◌then◌else◌,
}
use firebirdsql_go.Bytes.{int32_to_bytes, bint32_to_bytes}
use firebirdsql_go.Packets.{WireProtocol}
use firebirdsql_go.Packets.Blocks.{
  Host, clumplet, join_bytes, append_auth, append_timezone, append_auth_and_timezone,
  append_inline_blob_dpb, append_info, append_client_info_dpb, process_name, create_parts,
  create_dpb, attach_parts, attach_dpb,
}
use firebirdsql_go.Packets.Clumplets.{
  clumplets, read_block, IsShort, read_clumplets-clumplets, clumplets-append,
}
use firebirdsql_go.Packets.Items.{
  create_items, path_end, attach_items, auth_items, timezone_items, inline_items, info_item,
  client_items, session_items, created, attached, AreShort,
}

append_auth-items :
    (o : Option (List ℕ)) (w : List ℕ) → append_auth o w ≡ w ++ clumplets (auth_items o)
append_auth-items none w = sym (append-nil w)
append_auth-items (some auth) w = simp append-nil

append_timezone-items : (s w : List ℕ) → append_timezone s w ≡ w ++ clumplets (timezone_items s)
append_timezone-items [] w = sym (append-nil w)
append_timezone-items (c ∷ s) w = simp append-nil

append_inline-items :
    (p : WireProtocol) (w : List ℕ) → append_inline_blob_dpb p w ≡ w ++ clumplets (inline_items p)
unfolding append_inline_blob_dpb int32_to_bytes
append_inline-items p w = by_version (ltb_ℤ p.protocol_version (pos 19)) (
    (104, int32_to_bytes p.max_inline_blob_size) ∷ (103, int32_to_bytes p.max_blob_cache_size) ∷ [])
  where
    by_version :
        (b : Bool) (is : List (ℕ × List ℕ))
        → (if b then w else w ++ clumplets is) ≡ w ++ clumplets (if b then [] else is)
    by_version true is = sym (append-nil w)
    by_version false is = refl

append_info-items :
    (tag : ℕ) (v w : List ℕ) → append_info tag v w ≡ w ++ clumplets (info_item tag v)
append_info-items tag v w = by_length (length v == 0 || ltb 255 (length v))
  where
    by_length :
        (b : Bool)
        → (if b then w else w ++ clumplet tag v) ≡ w ++ clumplets (if b then [] else (tag, v) ∷ [])
    by_length true = sym (append-nil w)
    by_length false = simp append-nil

three_appended :
    (w : List ℕ) (is js ks : List (ℕ × List ℕ))
    → ((w ++ clumplets is) ++ clumplets js) ++ clumplets ks ≡ w ++ clumplets (is ++ (js ++ ks))
three_appended w is js ks =
    rw (clumplets-append is (js ++ ks), clumplets-append js ks) (simp append_assoc)

session-items :
    (p : WireProtocol) (w : List ℕ)
    → append_inline_blob_dpb p (append_auth_and_timezone p w) ≡ w ++ clumplets (session_items p)
unfolding append_auth_and_timezone
session-items p w =
    append_inline-items p _
    ∙ ap (λ t. t ++ clumplets (inline_items p))
        (append_timezone-items p.timezone _
          ∙ ap (λ t. t ++ clumplets (timezone_items p.timezone)) (append_auth-items p.auth_data w))
    ∙ three_appended w (auth_items p.auth_data) (timezone_items p.timezone) (inline_items p)

client-items :
    (p : WireProtocol) (w : List ℕ) → append_client_info_dpb p w ≡ w ++ clumplets (client_items p)
unfolding append_client_info_dpb
client-items p w =
    append_info-items 82 p.host_name _
    ∙ ap (λ t. t ++ clumplets (info_item 82 p.host_name))
        (append_info-items 83 p.os_user _
          ∙ ap (λ t. t ++ clumplets (info_item 83 p.os_user))
              (append_info-items 80 p.client_version w))
    ∙ three_appended w (info_item 80 p.client_version) (info_item 83 p.os_user)
        (info_item 82 p.host_name)

info_item-Short : (tag : ℕ) (v : List ℕ) → All IsShort (info_item tag v)
info_item-Short tag v = ground arith

client_items-Short : (p : WireProtocol) → All IsShort (client_items p)
client_items-Short p =
    All-append IsShort (info_item 80 p.client_version) _ (info_item-Short 80 p.client_version) (
      All-append IsShort (info_item 83 p.os_user) _ (info_item-Short 83 p.os_user)
        (info_item-Short 82 p.host_name))

inline_items-Short : (p : WireProtocol) → All IsShort (inline_items p)
unfolding int32_to_bytes
inline_items-Short p = ground arith

timezone_items-Short : (s : List ℕ) → length s < 256 → All IsShort (timezone_items s)
timezone_items-Short [] h = tt
timezone_items-Short (c ∷ s) h = (h, tt)

path_end-Short : (o : Option (List ℕ)) → length (path_end o) < 256
path_end-Short none = omega arith
path_end-Short (some path) = omega (arith, length-drop (length path - 255) path)

process_name-path_end : (h : Host) → process_name h ≡ path_end h.executable
unfolding process_name
process_name-path_end h = named h.executable
  where
    all_of : (n : ℕ) → ltb 255 n ≡ false → n - 255 ≡ 0
    all_of n h = ground arith

    named :
        (o : Option (List ℕ))
        → (elim o [
          | none ↦ []
          | some name ↦ if ltb 255 (length name) then drop (length name - 255) name else name
        ])
          ≡ path_end o
    named none = refl
    named (some path) = elim (Bool-cases (ltb 255 (length path))) [
      | inl long ↦ rw long refl
      | inr short ↦ rw (short, all_of (length path) short) refl
    ]

session_items-Short :
    (user password role : List ℕ) (p : WireProtocol)
    → AreShort user password role p
    → All IsShort (session_items p)
session_items-Short user password role p (c, u, w, r, a, t) =
    All-append IsShort (auth_items p.auth_data) _ a (
      All-append IsShort (timezone_items p.timezone) _ (timezone_items-Short p.timezone t)
        (inline_items-Short p))

create_parts-items :
    (user password role : List ℕ) (p : WireProtocol)
    → join_bytes (create_parts user password role p)
      ≡ 1 ∷ clumplets (create_items user password role p)
unfolding int32_to_bytes bint32_to_bytes
create_parts-items user password role p = refl

attach_parts-items :
    (h : Host) (user password role : List ℕ) (p : WireProtocol)
    → join_bytes (attach_parts h user password role p)
      ≡ 1 ∷ clumplets (attach_items h user password role p)
unfolding int32_to_bytes
attach_parts-items h user password role p = rw (process_name-path_end h) refl

create_dpb-items :
    (user password role : List ℕ) (p : WireProtocol)
    → create_dpb user password role p ≡ 1 ∷ clumplets (created user password role p)
unfolding create_dpb
create_dpb-items user password role p =
    session-items p _
    ∙ ap (λ t. t ++ clumplets (session_items p)) (create_parts-items user password role p)
    ∙ ap (λ bs. 1 ∷ bs)
        (sym (clumplets-append (create_items user password role p) (session_items p)))

attach_dpb-items :
    (h : Host) (user password role : List ℕ) (p : WireProtocol)
    → attach_dpb h user password role p ≡ 1 ∷ clumplets (attached h user password role p)
unfolding attach_dpb
attach_dpb-items h user password role p =
    session-items p _
    ∙ ap (λ t. t ++ clumplets (session_items p))
        (client-items p _
          ∙ ap (λ t. t ++ clumplets (client_items p)) (attach_parts-items h user password role p))
    ∙ ap (λ bs. 1 ∷ bs)
        (append_assoc (clumplets (attach_items h user password role p)) _ _
          ∙ rw (
            clumplets-append (attach_items h user password role p)
                (client_items p ++ session_items p),
            clumplets-append (client_items p) (session_items p),
          ))

attached-Short :
    (h : Host) (user password role : List ℕ) (p : WireProtocol)
    → AreShort user password role p
    → All IsShort (attached h user password role p)
unfolding int32_to_bytes
attached-Short h user password role p short =
    let (c, u, w, r, a, t) = short in
    let four : 4 < 256 = omega arith in
    let one : 1 < 256 = omega arith in
    All-append IsShort (attach_items h user password role p) _
      (four, (c, (u, (w, (r, (four, (path_end-Short h.executable, (one, tt))))))))
      (All-append IsShort (client_items p) _ (client_items-Short p)
        (session_items-Short user password role p short))

created-Short :
    (user password role : List ℕ) (p : WireProtocol)
    → AreShort user password role p
    → All IsShort (created user password role p)
unfolding int32_to_bytes bint32_to_bytes
created-Short user password role p short =
    let (c, u, w, r, a, t) = short in
    let four : 4 < 256 = omega arith in
    let one : 1 < 256 = omega arith in
    All-append IsShort (create_items user password role p) _
      (c, (c, (u, (w, (r, (four, (four, (four, (four, (one, tt))))))))))
      (session_items-Short user password role p short)

-- A server that reads tags, length bytes and values from the parameter block of an attachment, or
-- of a new database, finds exactly the items that the connection stands for, whatever the name of
-- the process and the identification of the client are. The character set, the user name in
-- capitals, the password, the role, the time zone and the authentication data in hexadecimal are
-- shorter than 256 bytes each.
pub attachment_blocks_read_back :
    (h : Host) (user password role : List ℕ) (p : WireProtocol)
    → AreShort user password role p
    → (read_block (attach_dpb h user password role p) ≡ some (attached h user password role p))
      × (read_block (create_dpb user password role p) ≡ some (created user password role p))
attachment_blocks_read_back h user password role p short = (
  ap read_block (attach_dpb-items h user password role p)
      ∙ read_clumplets-clumplets _ (attached h user password role p) (omega arith)
          (attached-Short h user password role p short),
  ap read_block (create_dpb-items user password role p)
      ∙ read_clumplets-clumplets _ (created user password role p) (omega arith)
          (created-Short user password role p short),
)
