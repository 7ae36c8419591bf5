-- ===== src/Nft/Calls.antt =====
-- The calls of modules/nft/nft.go that send a message, over the client's transactions.
use plugchain_sdk_go.Prelude.{ℕ, Bool, ◌==◌, if◌then◌else◌, List, [], ◌∷◌, length, Result, ok, ◌>>◌}
use plugchain_sdk_go.Client.{Io, ◌>>=◌, pure, BaseTx, ClientConfig, ResultTx, Services}
use plugchain_sdk_go.Client.Cache.{query_address}
use plugchain_sdk_go.Client.Broadcast.{build_and_send}
use plugchain_sdk_go.Nft.{
  NftMsg, issue_class, issue_nft, edit_nft, burn_nft, transfer_nft, transfer_class,
}

pub record IssueDenomRequest : Type 0 where
  pub id : List ℕ
  pub name : List ℕ
  pub schema : List ℕ
  pub symbol : List ℕ
  pub mint_restricted : Bool
  pub edit_restricted : Bool

pub record MintNftRequest : Type 0 where
  pub id : List ℕ
  pub class_id : List ℕ
  pub name : List ℕ
  pub uri : List ℕ
  pub data_ : List ℕ
  pub recipient : List ℕ

pub record EditNftRequest : Type 0 where
  pub id : List ℕ
  pub class_id : List ℕ
  pub name : List ℕ
  pub uri : List ℕ
  pub data_ : List ℕ

pub record TransferClassRequest : Type 0 where
  pub id : List ℕ
  pub recipient : List ℕ

pub record TransferNftRequest : Type 0 where
  pub id : List ℕ
  pub class_id : List ℕ
  pub recipient : List ℕ

pub record BurnNftRequest : Type 0 where
  pub class_id : List ℕ
  pub id : List ℕ

module _ {W : Type 0} (node : Services W NftMsg) (cfg : ClientConfig)
    (validate_acc_address : List ℕ → Result (Unit {0})) where
  unfoldable pub issue_denom : IssueDenomRequest → BaseTx → Io W ResultTx
  unfolding query_address build_and_send
  issue_denom request base_tx = query_address node cfg base_tx.from_ base_tx.password >>= λ sender.
      build_and_send node cfg
        (issue_class (record {
          id = request.id;
          name = request.name;
          schema = request.schema;
          owner = node.address_string sender;
          symbol = request.symbol;
          mint_restricted = request.mint_restricted;
          edit_restricted = request.edit_restricted;
        })
          ∷ [])
        base_tx

  -- The recipient of `MintNFT`: the sender, if none is given.
  unfoldable pub recipient_of : List ℕ → List ℕ → Result (List ℕ)
  recipient_of given sender =
      if length given == 0 then ok sender else (validate_acc_address given >> ok given)

  unfoldable pub mint_nft : MintNftRequest → BaseTx → Io W ResultTx
  unfolding query_address build_and_send recipient_of
  mint_nft request base_tx = query_address node cfg base_tx.from_ base_tx.password >>= λ sender.
      pure (recipient_of request.recipient (node.address_string sender)) >>= λ recipient.
      build_and_send node cfg
        (issue_nft (record {
          id = request.id;
          class_id = request.class_id;
          name = request.name;
          uri = request.uri;
          data_ = request.data_;
          owner = node.address_string sender;
          recipient = recipient;
        })
          ∷ [])
        base_tx

  unfoldable pub edit : EditNftRequest → BaseTx → Io W ResultTx
  unfolding query_address build_and_send
  edit request base_tx = query_address node cfg base_tx.from_ base_tx.password >>= λ sender.
      build_and_send node cfg
        (edit_nft (record {
          id = request.id;
          class_id = request.class_id;
          name = request.name;
          uri = request.uri;
          data_ = request.data_;
          owner = node.address_string sender;
        })
          ∷ [])
        base_tx

  unfoldable pub transfer : TransferNftRequest → BaseTx → Io W ResultTx
  unfolding query_address build_and_send
  transfer request base_tx = query_address node cfg base_tx.from_ base_tx.password >>= λ sender.
      pure (validate_acc_address request.recipient) >>= λ done.
      build_and_send node cfg
        (transfer_nft (record {
          id = request.id;
          class_id = request.class_id;
          owner = node.address_string sender;
          recipient = request.recipient;
        })
          ∷ [])
        base_tx

  unfoldable pub transfer_whole_class : TransferClassRequest → BaseTx → Io W ResultTx
  unfolding query_address build_and_send
  transfer_whole_class request base_tx =
      query_address node cfg base_tx.from_ base_tx.password >>= λ sender.
      pure (validate_acc_address request.recipient) >>= λ done.
      build_and_send node cfg
        (transfer_class (record {
          id = request.id;
          owner = node.address_string sender;
          recipient = request.recipient;
        })
          ∷ [])
        base_tx

  unfoldable pub burn : BurnNftRequest → BaseTx → Io W ResultTx
  unfolding query_address build_and_send
  burn request base_tx = query_address node cfg base_tx.from_ base_tx.password >>= λ sender.
      build_and_send node cfg
        (burn_nft (record {
          id = request.id;
          class_id = request.class_id;
          owner = node.address_string sender;
        })
          ∷ [])
        base_tx
