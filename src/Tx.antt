-- ===== src/Tx.antt =====
-- types/tx: the transaction, its builder with the bytes that it keeps, its signatures, its encoder and its
-- decoder. Here are the messages that the generated code declares.
pub mod Signatures
pub mod Wrapper
pub mod Signed
pub mod Coding
pub mod Kept
pub mod Signing
pub mod Returned
pub mod Everyone
pub mod Signers
use plugchain_sdk_go.Prelude.{ℕ, Bool, List, Option, Result}
use plugchain_sdk_go.Coin.{Coins}
use plugchain_sdk_go.BitArray.{CompactBitArray}

-- `SignatureData`. The nil interface is `no_data`, the nil pointer to a bit array is `none`.
mutual
  pub data SignatureData : Type 0 where
    no_data : SignatureData
    single : ℕ → List ℕ → SignatureData
    multi : Option CompactBitArray → SignatureDatas → SignatureData

  pub data SignatureDatas : Type 0 where
    nil : SignatureDatas
    cons : SignatureData → SignatureDatas → SignatureDatas

-- `ModeInfo`: the nil pointer, one whose `Sum` is nil, and the two members of `Sum`.
mutual
  pub data ModeInfo : Type 0 where
    no_mode : ModeInfo
    no_sum : ModeInfo
    single_mode : ℕ → ModeInfo
    multi_mode : Option CompactBitArray → ModeInfos → ModeInfo

  pub data ModeInfos : Type 0 where
    none_left : ModeInfos
    and_mode : ModeInfo → ModeInfos → ModeInfos

-- A nil `PublicKey` is `none`; `A` is the type of `Any`.
pub record SignerInfo (A : Type 0) : Type 0 where
  pub public_key : Option A
  pub mode_info : ModeInfo
  pub sequence : ℕ

-- A nil `PubKey` is `none`; `K` is the type of public keys.
pub record SignatureV2 (K : Type 0) : Type 0 where
  pub pub_key : Option K
  pub data_ : SignatureData
  pub sequence : ℕ
  pub skip_sequence_check : Bool

pub record TxBody (A : Type 0) : Type 0 where
  pub messages : List A
  pub memo : List ℕ
  pub timeout_height : ℕ
  pub extension_options : List A
  pub non_critical_extension_options : List A

pub record Fee : Type 0 where
  pub amount : Coins
  pub gas_limit : ℕ
  pub payer : List ℕ
  pub granter : List ℕ

pub record AuthInfo (A : Type 0) : Type 0 where
  pub signer_infos : List (SignerInfo A)
  pub fee : Option Fee

-- The body and the information on the signers are there, as the builder and the decoder make them.
pub record ProtoTx (A : Type 0) : Type 0 where
  pub body : TxBody A
  pub auth_info : AuthInfo A
  pub signatures : List (List ℕ)

pub record TxRaw : Type 0 where
  pub body_bytes : List ℕ
  pub auth_info_bytes : List ℕ
  pub signatures : List (List ℕ)

pub record SignDoc : Type 0 where
  pub body_bytes : List ℕ
  pub auth_info_bytes : List ℕ
  pub chain_id : List ℕ
  pub account_number : ℕ

-- The generated code that encodes the messages and decodes them, and what else the package calls: the
-- packing of a value, the value that an `Any` keeps, and the addresses. The second part of a decoded
-- `MultiSignature` is `XXX_unrecognized`.
pub record Proto (A K Msg : Type 0) : Type 0 where
  pub marshal_multi : List (List ℕ) → Result (List ℕ)
  pub unmarshal_multi : List ℕ → Result (List (List ℕ) × List ℕ)
  pub marshal_body : TxBody A → Result (List ℕ)
  pub unmarshal_body : List ℕ → Result (TxBody A)
  pub marshal_auth_info : AuthInfo A → Result (List ℕ)
  pub unmarshal_auth_info : List ℕ → Result (AuthInfo A)
  pub marshal_raw : TxRaw → Result (List ℕ)
  pub unmarshal_raw : List ℕ → Result TxRaw
  pub marshal_sign_doc : SignDoc → Result (List ℕ)
  pub is_proto_message : K → Bool
  pub pack_key : K → Result A
  pub pack_msg : Msg → Result A
  pub cached_key : A → Option K
  pub cached_msg : A → Option Msg
  pub msg_signers : Msg → List (List ℕ)
  pub address_string : List ℕ → List ℕ
  pub acc_address_from_bech32 : List ℕ → Result (List ℕ)
