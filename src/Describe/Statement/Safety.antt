-- ===== src/Describe/Statement/Safety.antt =====
-- `parse_xsqlda` on what any server sends.
use firebirdsql_go.Base.{ℕ, ◌+◌, ◌≤◌, ◌<◌, ◌≡◌, List, length}
use firebirdsql_go.Wire.{Recv, Stream}
use firebirdsql_go.Wire.Safety.{Safe}
use firebirdsql_go.Describe.{XsqlVar}

-- The step takes nothing from the network.
abbrev Same : {A : Type 0} → (A → Type 0) → Stream → A → Stream → Type 0
Same P s a rest = P a × (rest ≡ s)

-- What is known of the reply to a continuation: it is an answer or an expected fault, and all of it
-- was sent, with a header before it.
module _ (more : ℕ → Recv (List ℕ))
    (more-Safe : (k : ℕ) (s : Stream)
      → Safe (λ b rest. length rest + length b < length s) (more k s)) where
  abbrev Left : List ℕ → Stream → List XsqlVar × List ℕ → Stream → Type 0
  Left buf s r rest = (length r.1 + length rest ≤ length buf + length s) × (length rest ≤ length s)
