-- ===== src/Policy.antt =====
-- The security policy of a connection: wire_crypt.go, auth_plugin.go, and the choice of a cipher in
-- `_guess_wire_crypt` of wireprotocol.go.
pub mod Records
pub mod Choice
pub mod Auth
pub mod Resolve
mod Tests
use firebirdsql_go.Base.{
  ℕ, zero, suc, ◌+◌, ◌-◌, Bool, true, false, not, ◌&&◌, ◌||◌, Option, none, some, List, [], ◌∷◌,
  ◌++◌, length, take, drop, leb, ltb, ◌==◌, bytes_eq, bytes_of, ◌>>=◌, if◌then◌else◌,
}
use firebirdsql_go.Texts.{trim_space, to_lower, split, split_list, contains}

pub data WireCryptMode : Type 0 where
  disabled enabled required : WireCryptMode

pub data PolicyError : Type 0 where
  bad_mode wire_crypt_required empty_list unsupported_plugin name_not_listed : PolicyError

-- A test of the value against one `case` list of the switch.
abbrev pub one_of : List ℕ → List (List ℕ) → Bool
one_of s cases = contains cases s

-- The mode, and the error beside it.
unfoldable pub parse_wire_crypt_mode : List ℕ → WireCryptMode × Option PolicyError
unfolding trim_space to_lower contains
parse_wire_crypt_mode s =
    let v = to_lower (trim_space s) in
    if one_of v (bytes_of "false" ∷ bytes_of "0" ∷ bytes_of "disabled" ∷ [])
    then (disabled, none)
    else if one_of v ([] ∷ bytes_of "true" ∷ bytes_of "1" ∷ bytes_of "enabled" ∷ [])
    then (enabled, none)
    else if one_of v (bytes_of "required" ∷ [])
    then (required, none)
    else (enabled, some bad_mode)

abbrev pub is_disabled : WireCryptMode → Bool
is_disabled disabled = true
is_disabled _ = false

abbrev pub is_required : WireCryptMode → Bool
is_required required = true
is_required _ = false

-- Whether to encrypt, and the error beside it.
unfoldable pub wire_crypt_resolve : WireCryptMode → List ℕ → Bool → Bool × Option PolicyError
unfolding bytes_eq
wire_crypt_resolve mode enc_plugin has_session_key =
    let encrypt = not (bytes_eq enc_plugin []) && (not (is_disabled mode) && has_session_key) in
    (encrypt, (if not encrypt && is_required mode then some wire_crypt_required else none))

abbrev pub default_wire_crypt_plugins : List ℕ
default_wire_crypt_plugins = bytes_of "ChaCha64,ChaCha,Arc4"

abbrev pub default_auth_plugins : List ℕ
default_auth_plugins = bytes_of "Srp256,Srp,Legacy_Auth"

unfoldable pub is_auth_plugin_allowed : List ℕ → List ℕ → Bool
unfolding contains split_list
is_auth_plugin_allowed plugin auth_plugin_list = contains (split_list auth_plugin_list) plugin

unfoldable pub all_supported : List (List ℕ) → List (List ℕ) → Bool
unfolding contains
all_supported supported [] = true
all_supported supported (p ∷ ps) = contains supported p && all_supported supported ps

-- `none` is no error.
unfoldable pub validate_auth_plugins : List ℕ → List ℕ → Option PolicyError
validate_auth_plugins auth_plugin_name auth_plugin_list =
    let supported = split_list default_auth_plugins in
    let entries = split_list auth_plugin_list in
    if length entries == 0
    then some empty_list
    else if not (all_supported supported entries)
    then some unsupported_plugin
    else if not (contains entries auth_plugin_name)
    then some name_not_listed
    else none

-- What the server offers: plugin names, and the nonces in the order received.
pub record Offer : Type 0 where
  pub plugins : List (List ℕ)
  pub nonces : List (List ℕ)

abbrev pub no_offer : Offer
no_offer = record { plugins = []; nonces = [] }

abbrev pub note_record : ℕ → List ℕ → Offer → Offer
note_record t v o =
    if t == 1
    then record o { plugins = split v 32 }
    else if t == 3
    then record o { nonces = o.nonces ++ v ∷ [] }
    else o

-- `buf[i : i+ln]`, with what is behind it; past the end it is a panic.
abbrev pub cut_value : ℕ → List ℕ → Option (List ℕ × List ℕ)
cut_value ln rest = if leb ln (length rest) then some (take ln rest, drop ln rest) else none

-- The loop over `buf[i:]`: a type byte, a length byte and the value; it stops at the first record
-- that is cut short. `none`: a panic, or the fuel ran out.
unfoldable pub scan_offer : ℕ → List ℕ → Offer → Option Offer
unfolding split
scan_offer fuel [] o = some o
scan_offer zero (t ∷ rest) o = none
scan_offer (suc fuel) (t ∷ []) o = some o
scan_offer (suc fuel) (t ∷ ln ∷ rest) o =
    let next = cut_value ln rest >>= λ (v, more). scan_offer fuel more (note_record t v o) in
    if ltb (length rest) ln then some o else next

-- A cipher's name and nonce; Arc4 has none. The empty name is "no cipher".
pub record Cipher : Type 0 where
  pub name : List ℕ
  pub nonce : Option (List ℕ)

abbrev pub no_cipher : Cipher
no_cipher = record { name = []; nonce = none }

abbrev pub chacha64 : List ℕ
chacha64 = bytes_of "ChaCha64"

abbrev pub chacha : List ℕ
chacha = bytes_of "ChaCha"

abbrev pub arc4 : List ℕ
arc4 = bytes_of "Arc4"

-- The first nonce that is long enough and begins with the cipher's name and a zero.
unfoldable pub chacha64_nonce : List (List ℕ) → Option (List ℕ)
unfolding bytes_eq
chacha64_nonce [] = none
chacha64_nonce (n ∷ ns) =
    if ltb (length n) 9
    then chacha64_nonce ns
    else if bytes_eq (take 9 n) (chacha64 ++ 0 ∷ [])
    then some (drop 9 n)
    else chacha64_nonce ns

unfoldable pub chacha_nonce : List (List ℕ) → Option (List ℕ)
unfolding bytes_eq
chacha_nonce [] = none
chacha_nonce (n ∷ ns) =
    if ltb (length n) (7 + 12)
    then chacha_nonce ns
    else if bytes_eq (take 7 n) (chacha ++ 0 ∷ [])
    then some (take 12 (drop 7 n))
    else chacha_nonce ns

-- The body of the loop over the client's plugins: a cipher, or `none` to go on.
unfoldable pub try_plugin : Offer → List ℕ → Option Cipher
try_plugin o plugin =
    if not (contains o.plugins plugin)
    then none
    else if bytes_eq plugin chacha64
    then (chacha64_nonce o.nonces >>= λ iv. some (record { name = chacha64; nonce = some iv }))
    else if bytes_eq plugin chacha
    then (chacha_nonce o.nonces >>= λ iv. some (record { name = chacha; nonce = some iv }))
    else if bytes_eq plugin arc4
    then some (record { name = arc4; nonce = none })
    else none

-- A `return` in the loop's body ends it.
abbrev pub or_go_on : Option Cipher → Cipher → Cipher
or_go_on none c = c
or_go_on (some found) c = found

unfoldable pub choose : Offer → List (List ℕ) → Cipher
choose o [] = no_cipher
choose o (p ∷ ps) = or_go_on (try_plugin o p) (choose o ps)

-- The fuel is the buffer's length: each record takes two bytes at least.
unfoldable pub guess_wire_crypt : List ℕ → List (List ℕ) → Option Cipher
guess_wire_crypt buf client_plugins =
    scan_offer (length buf) buf no_offer >>= λ o. some (choose o client_plugins)
