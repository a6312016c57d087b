-- ===== src/Governance/Access.antt =====
-- Who is let in by app/api/deps.py, `require_client`.
use firecrawl_manger.Prelude.{
  ◌≡◌, ◌≢◌, ◌↔◌, refl, Bool, true, Option, none, some, [], ◌++◌, arith, Option-cases, inl, inr,
}
use firecrawl_manger.Prelude.Text.{Text, text, strip, split_once, text_beq_iff}
use firecrawl_manger.Errors.{Result, ok, err, database_unavailable}
use firecrawl_manger.Models.{Client}
use firecrawl_manger.Governance.{bearer_token, found_client, require_client}

-- The token that a client sends is the one that is looked up, whatever capitals the scheme has.
pub bearer_token-Sent :
    (token : Text)
    → strip token ≡ token
    → token ≢ []
    → (bearer_token (text "Bearer " ++ token) ≡ some token)
      × (bearer_token (text "bearer " ++ token) ≡ some token)
unfolding bearer_token split_once
bearer_token-Sent token trimmed sent = (
  rw trimmed (ground (arith, text_beq_iff token [])),
  rw trimmed (ground (arith, text_beq_iff token [])),
)

abbrev found : Result (Option Client) → Result Client
found (err e) = err database_unavailable
found (ok row) = found_client row

found_row :
    (looked : Result (Option Client)) (client : Client)
    → found looked ≡ ok client
    → (looked ≡ ok (some client)) × (client.is_active ≡ true)
found_row (err e) client h = absurd (ground arith)
found_row (ok none) client h = absurd (ground arith)
found_row (ok (some row)) client h = (ground arith, ground arith)

-- A client is let in exactly if a master key is configured, the header carries a token, and the row
-- that the database has for the hash of the token is that of the client, and active.
pub require_client_admits :
    (has_master_key : Bool) (authorization : Option Text) (look_up : Text → Result (Option Client))
    (client : Client)
    → (require_client has_master_key authorization look_up ≡ ok client) ↔ (
        (header token : Text) × (has_master_key ≡ true)
        × (authorization ≡ some header)
        × (bearer_token header ≡ some token)
        × (look_up token ≡ ok (some client))
        × (client.is_active ≡ true))
unfolding require_client
require_client_admits has_master_key authorization look_up client = (
  λ h. elim (Option-cases authorization) [
    | inl missing ↦ absurd (ground arith)
    | inr (header, sent) ↦ elim (Option-cases (bearer_token header)) [
      | inl unreadable ↦ absurd (ground arith)
      | inr (token, read) ↦
          let looked : found (look_up token) ≡ ok client = ground arith in
          let (row, live) = found_row (look_up token) client looked in
          (header, token, ground arith, sent, read, row, live)
    ]
  ],
  λ h.
      let (header, token, keyed, sent, read, row, live) = h in
      rw (keyed, sent, read, row, live) refl,
)
