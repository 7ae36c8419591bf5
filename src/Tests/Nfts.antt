-- ===== src/Tests/Nfts.antt =====
-- A message that issues a token, with its check, and a URI that is refused.
use plugchain_sdk_go.Prelude.{ℕ, ◌≡◌, ◌↔◌, refl, List, [], ◌∷◌, Result, ok, err, invalid_uri}
use plugchain_sdk_go.Nft.{MsgIssueNft, validate_issue_nft, validate_nft_uri, regexp_uri}
use plugchain_sdk_go.Nft.Accepted.{IsIssuable, validate_issue_nft_iff}

abbrev short_id : List ℕ
short_id = b'a' ∷ b'1' ∷ b'b' ∷ []

abbrev small_issue : MsgIssueNft
small_issue = record {
  id = short_id;
  class_id = short_id;
  name = [];
  uri = b'h' ∷ b't' ∷ b't' ∷ b'p' ∷ b':' ∷ b'/' ∷ b'/' ∷ [];
  data_ = [];
  owner = b'o' ∷ [];
  recipient = b'r' ∷ [];
}

abbrev any_address : List ℕ → Result (Unit {0})
any_address a = ok tt

validate_issue_nft_iff_example :
    (validate_issue_nft any_address (λ a. ok a) small_issue ≡ ok tt)
    ↔ IsIssuable any_address small_issue
validate_issue_nft_iff_example = validate_issue_nft_iff any_address (λ a. ok a) small_issue

-- An empty URI, which the text of the error allows.
empty_uri : validate_nft_uri [] ≡ err invalid_uri
unfolding validate_nft_uri regexp_uri
empty_uri = refl
