-- ===== src/Connection/Sends.antt =====
-- What an operation of a connection sends, and what it keeps of the handles.
use firebirdsql_go.Base.{
  ℕ, zero, suc, ◌≡◌, refl, sym, ap, ◌∙◌, subst, ℤ, Bool, All, Option, option_cases, none, some,
  List, [], ◌∷◌, ◌++◌, append_assoc, map, get_elem?,
}
use firebirdsql_go.Packets.{WireProtocol, Send}
use firebirdsql_go.Packets.Sending.{IsReliable, Accepts, send_reliable, send-Reliable}
use firebirdsql_go.Packets.Requests.{Item, encode, message, Request, perform}
use firebirdsql_go.Packets.Delivery.{perform-Packs, encode-append}
use firebirdsql_go.Connection.{Conn, Tx, ConnFault, op_response, send_with}
use firebirdsql_go.Connection.Transactions.{modify, exchange, ended}

abbrev pub handles : List Tx → List ℤ
handles ts = map (λ t. t.trans_handle) ts

-- A reliable connection with nothing in its buffer that has sent these items since.
abbrev pub Sends : WireProtocol → WireProtocol → List Item → Type 0
Sends p q is =
    (q.sent ≡ p.sent ++ encode is) × (q.buf ≡ []) × IsReliable q × (q.db_handle ≡ p.db_handle)

pub sends_request :
    (p : WireProtocol) (r : Request)
    → IsReliable p
    → p.buf ≡ []
    → (((perform r p).0.sent ≡ p.sent ++ encode (message p r))
        × ((perform r p).0.buf ≡ [])
        × IsReliable (perform r p).0)
sends_request p r reliable empty =
    let (q, performed, (sent, writes, buf)) = perform-Packs p r in
    let again : IsReliable q = subst (λ c. All Accepts c.writes) (sym writes) reliable in
    let (idle, all_sent, emptied) = send_reliable q again in
    (
      ap (λ t. t.0.sent) performed
          ∙ all_sent
          ∙ ap (λ t. t ++ q.buf) sent
          ∙ ap (λ t. p.sent ++ t) (buf ∙ ap (λ t. t ++ encode (message p r)) empty),
      ap (λ t. t.0.buf) performed ∙ emptied,
      subst (λ t. IsReliable t.0) (sym performed) (send-Reliable q again),
    )

pub exchange-wp : (request : Send) (fc : Conn) → (exchange request fc).0.wp ≡ (request fc.wp).0
unfolding exchange op_response
exchange-wp request fc =
    option_cases {B = Conn} (λ c. c.wp ≡ (request fc.wp).0) (send_with request fc).1 (λ e. refl)
      (λ a e. refl)

pub exchange-txs : (request : Send) (fc : Conn) → (exchange request fc).0.txs ≡ fc.txs
unfolding exchange op_response
exchange-txs request fc =
    option_cases {B = Conn} (λ c. c.txs ≡ fc.txs) (send_with request fc).1 (λ e. refl) (λ a e. refl)

pub handles-modify :
    (ts : List Tx) (i : ℕ) (f : Tx → Tx)
    → ((t : Tx) → (f t).trans_handle ≡ t.trans_handle)
    → handles (modify ts i f) ≡ handles ts
unfolding modify
handles-modify [] i f h = refl
handles-modify (t ∷ ts) zero f h = ap (λ z. z ∷ handles ts) (h t)
handles-modify (t ∷ ts) (suc i) f h = ap (λ zs. t.trans_handle ∷ zs) (handles-modify ts i f h)

pub ended-parts :
    (i : ℕ) (handle : ℤ) (retain : Bool) (fc : Conn) (a : Option (ℤ × Option ConnFault))
    → ((ended i handle retain fc a).0.wp ≡ fc.wp)
      × (handles (ended i handle retain fc a).0.txs ≡ handles fc.txs)
unfolding ended
ended-parts i handle retain fc none = (refl, refl)
ended-parts i handle retain fc (some (h, e)) = (refl, handles-modify fc.txs i _ (λ t. refl))

pub get_elem?-handles :
    (ts : List Tx) (i : ℕ)
    → get_elem? (handles ts) i
      ≡ elim (get_elem? ts i) [ none ↦ none | some t ↦ some t.trans_handle ]
get_elem?-handles [] i = refl
get_elem?-handles (t ∷ ts) zero = refl
get_elem?-handles (t ∷ ts) (suc i) = get_elem?-handles ts i

-- One sending after another.
pub Sends-more :
    (p q r : WireProtocol) (is js : List Item) → Sends p q is → Sends q r js → Sends p r (is ++ js)
Sends-more p q r is js h k = (
  k.0
      ∙ ap (λ t. t ++ encode js) h.0
      ∙ append_assoc p.sent (encode is) (encode js)
      ∙ ap (λ t. p.sent ++ t) (sym (encode-append is js)),
  k.1,
  k.2,
  k.3 ∙ h.3,
)
