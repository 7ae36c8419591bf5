-- ===== src/Nft.antt =====
-- modules/nft/types.go: the messages on non-fungible tokens and their classes, with their checks.
pub mod Calls
pub mod Accepted
use plugchain_sdk_go.Prelude.{
  ℕ, Bool, true, false, not, ◌&&◌, ◌||◌, leb, ltb, ◌==◌, List, [], ◌∷◌, length, Result, ok, ◌>>=◌,
  ◌>>◌, err_if, missing_address, missing_id, invalid_nft_id, invalid_class, keyword, invalid_uri,
}
use plugchain_sdk_go.CoinType.{trim_space}

pub record MsgIssueClass : Type 0 where
  pub id : List ℕ
  pub name : List ℕ
  pub schema : List ℕ
  pub owner : List ℕ
  pub symbol : List ℕ
  pub mint_restricted : Bool
  pub edit_restricted : Bool

pub record MsgIssueNft : Type 0 where
  pub id : List ℕ
  pub class_id : List ℕ
  pub name : List ℕ
  pub uri : List ℕ
  pub data_ : List ℕ
  pub owner : List ℕ
  pub recipient : List ℕ

pub record MsgEditNft : Type 0 where
  pub id : List ℕ
  pub class_id : List ℕ
  pub name : List ℕ
  pub uri : List ℕ
  pub data_ : List ℕ
  pub owner : List ℕ

pub record MsgBurnNft : Type 0 where
  pub id : List ℕ
  pub class_id : List ℕ
  pub owner : List ℕ

pub record MsgTransferNft : Type 0 where
  pub id : List ℕ
  pub class_id : List ℕ
  pub owner : List ℕ
  pub recipient : List ℕ

pub record MsgTransferClass : Type 0 where
  pub id : List ℕ
  pub owner : List ℕ
  pub recipient : List ℕ

pub data NftMsg : Type 0 where
  issue_class : MsgIssueClass → NftMsg
  issue_nft : MsgIssueNft → NftMsg
  edit_nft : MsgEditNft → NftMsg
  burn_nft : MsgBurnNft → NftMsg
  transfer_nft : MsgTransferNft → NftMsg
  transfer_class : MsgTransferClass → NftMsg

abbrev pub min_class_len : ℕ
min_class_len = 3

abbrev pub max_class_len : ℕ
max_class_len = 64

abbrev pub max_nft_uri_len : ℕ
max_nft_uri_len = 256

-- The patterns [a-z] and [a-z0-9].
abbrev pub is_lower : ℕ → Bool
is_lower c = leb b'a' c && leb c b'z'

abbrev pub is_lower_or_digit : ℕ → Bool
is_lower_or_digit c = is_lower c || leb b'0' c && leb c b'9'

abbrev pub all_lower_or_digit : List ℕ → Bool
all_lower_or_digit [] = true
all_lower_or_digit (c ∷ cs) = is_lower_or_digit c && all_lower_or_digit cs

-- `RegexAlphaNumeric` and `RegexAlphaTop`
unfoldable pub regex_alpha_numeric : List ℕ → Bool
regex_alpha_numeric s = not (length s == 0) && all_lower_or_digit s

unfoldable pub regex_alpha_top : List ℕ → Bool
regex_alpha_top [] = false
regex_alpha_top (c ∷ cs) = is_lower c

-- A pattern `^(p).*`.
abbrev pub starts_with : List ℕ → List ℕ → Bool
starts_with [] s = true
starts_with (p ∷ ps) [] = false
starts_with (p ∷ ps) (c ∷ cs) = p == c && starts_with ps cs

-- `regexpKeyword` and `regexpURI`
unfoldable pub regexp_keyword : List ℕ → Bool
regexp_keyword s =
    starts_with (b'i' ∷ b'b' ∷ b'c' ∷ []) s || starts_with (b'p' ∷ b'l' ∷ b'u' ∷ b'g' ∷ []) s

unfoldable pub regexp_uri : List ℕ → Bool
regexp_uri s =
    starts_with (b'h' ∷ b't' ∷ b't' ∷ b'p' ∷ b':' ∷ b'/' ∷ b'/' ∷ []) s
    || starts_with (b'h' ∷ b't' ∷ b't' ∷ b'p' ∷ b's' ∷ b':' ∷ b'/' ∷ b'/' ∷ []) s

unfoldable pub validate_nft_id : List ℕ → Result (Unit {0})
unfolding regex_alpha_numeric regex_alpha_top
validate_nft_id id =
    err_if (ltb (length id) min_class_len || ltb max_class_len (length id)) invalid_nft_id
    >> err_if (not (regex_alpha_numeric id) || not (regex_alpha_top id)) invalid_nft_id

unfoldable pub validate_keywords : List ℕ → Result (Unit {0})
unfolding regexp_keyword
validate_keywords id = err_if (regexp_keyword id) keyword

unfoldable pub validate_class_id : List ℕ → Result (Unit {0})
unfolding regex_alpha_numeric regex_alpha_top validate_keywords
validate_class_id id =
    err_if (ltb (length id) min_class_len || ltb max_class_len (length id)) invalid_class
    >> (err_if (not (regex_alpha_numeric id) || not (regex_alpha_top id)) invalid_class
        >> validate_keywords id)

unfoldable pub validate_nft_uri : List ℕ → Result (Unit {0})
unfolding regexp_uri
validate_nft_uri uri =
    err_if (ltb max_nft_uri_len (length uri)) invalid_uri
    >> err_if (not (regexp_uri uri)) invalid_uri

-- `ValidateAccAddress` and `AccAddressFromBech32` are parameters.
module _ (validate_acc_address : List ℕ → Result (Unit {0}))
    (parse_address : List ℕ → Result (List ℕ)) where
  -- What every message starts with.
  unfoldable pub check_owner : List ℕ → Result (Unit {0})
  check_owner owner = err_if (length owner == 0) missing_address >> validate_acc_address owner

  unfoldable pub validate_issue_class : MsgIssueClass → Result (Unit {0})
  unfolding check_owner trim_space
  validate_issue_class m = check_owner m.owner >> err_if (length (trim_space m.id) == 0) missing_id

  unfoldable pub validate_issue_nft : MsgIssueNft → Result (Unit {0})
  unfolding check_owner validate_class_id validate_nft_id validate_nft_uri
  validate_issue_nft m =
      check_owner m.owner
      >> (validate_acc_address m.recipient
          >> (validate_class_id m.class_id >> (validate_nft_id m.id >> validate_nft_uri m.uri)))

  unfoldable pub validate_edit_nft : MsgEditNft → Result (Unit {0})
  unfolding check_owner validate_class_id validate_nft_id validate_nft_uri
  validate_edit_nft m =
      check_owner m.owner
      >> (validate_class_id m.class_id >> (validate_nft_id m.id >> validate_nft_uri m.uri))

  unfoldable pub validate_burn_nft : MsgBurnNft → Result (Unit {0})
  unfolding check_owner validate_class_id validate_nft_id
  validate_burn_nft m =
      check_owner m.owner >> (validate_class_id m.class_id >> validate_nft_id m.id)

  unfoldable pub validate_transfer_nft : MsgTransferNft → Result (Unit {0})
  unfolding check_owner validate_nft_id
  validate_transfer_nft m =
      check_owner m.owner
      >> (parse_address m.recipient >>= λ recipient.
          parse_address m.owner >>= λ owner. validate_nft_id m.id)

  unfoldable pub validate_transfer_class : MsgTransferClass → Result (Unit {0})
  unfolding check_owner validate_nft_id
  validate_transfer_class m =
      check_owner m.owner >> (parse_address m.owner >>= λ owner. validate_nft_id m.id)
