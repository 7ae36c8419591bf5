-- ===== src/Lib.antt =====
-- A model of plugchain-sdk-go, with the theorems that make it correct: integers of 255 bits, decimals of
-- 18 places, coins and sorted sets of coins, the two units of a token, the prices of a swap, the paths and
-- keys of HD wallets, events, multi-signatures, and the client that builds, signs and sends transactions.
--
-- The parts, and the files that model them (paths from the root of the repository):
--   * `Int` is types/int.go: an `Int` is the integer in its `big.Int`, and each operation keeps the
--     guards of the source. `Int.Bounds` has the range.
--   * `Dec` is types/dec.go: a `Dec` (`Decimal`) is the underlying integer, which is 10^18 times the decimal.
--     `Dec.Round`, `Dec.Product` and `Dec.Quotient` compare it with exact arithmetic; `Dec.Root` has
--     powers and roots, `Dec.Parse` the parser, and `Dec.Text` what it reads back.
--   * `Denom` is the order of denominations and the pattern of types/coin.go. A denomination is the
--     list of its bytes, and `strings.ToLower` is modelled for ASCII only: other bytes are left as they
--     are, so that behind the first coin of a set `IsValid` of the model accepts denominations with
--     other capital letters, which the code refuses.
--   * `CoinSet` is the code that types/coin.go and types/dec_coin.go have in common, over the addition
--     of amounts. Its clients give the laws of that addition as a record (`CoinSet.Total`). The
--     children show, for sets in any order or in strict order: what a set holds (`Total`), that the
--     merge sorts (`Merge`) and keeps what it should (`Kept`), the binary search (`Find`), the
--     removal of zeros in place (`Zeros`), sorting (`Sort`), validity (`Valid`) and what decides a set (`Canonical`).
--   * `Coin` and `DecCoin` are the rest of types/coin.go and of types/dec_coin.go, but for the texts: those are
--     in `CoinText`, with the parsers of both and NewIntFromString. `CoinText.Scan` has what the scanners do to a
--     string, `CoinText.Amounts` the text of one coin, and `CoinText.RoundTrip` that of a set.
--   * `CoinType` is types/coin_type.go and types/token.go, `Swap` the price functions of
--     modules/coinswap/coinswap.go and GetOfferCoinFee of types/utils.go; `Swap.Messages` is
--     modules/coinswap/types.go, and `Swap.Calls` the calls that send its messages.
--   * `BitArray` is crypto/types/compact_bit_array.go and crypto/types/multisig/multisignature.go, with
--     the JSON form in `BitArray.Json`; `BitArray.Verify` is crypto/keys/multisig/multisig.go, with the
--     keys of a library's scheme and their check of a signature as parameters.
--     `BitArray.View` says what a valid array holds, `BitArray.Signatures` how signatures go with it, and
--     `BitArray.RoundTrip` what the JSON form keeps, `BitArray.Compact` has the compact binary form; `BitArray.Bits` has bytes as bits.
--   * `HdPath` is crypto/hd/hdpath.go. The curve, HMAC-SHA512 and the order of the group are a record
--     of parameters (`Crypto`). `HdPath.RoundTrip` reads a printed path, `HdPath.Derive` has the code of the
--     derivation, `HdPath.Levels` and `HdPath.Scalars` its proofs.
--   * `Events` is the string events of types/events.go, `Events.Flatten` their grouping, and
--     `Events.Query` the builder of subscriptions in types/event.go.
--   * `Client` is the client: the caches of modules/account.go and modules/token.go over
--     utils/cache/cache.go (`Cache`, `Tokens`), client/tx/factory.go (`Factory`, `Sign`), and
--     modules/base_client.go with modules/tx.go (`Prepare`, `Broadcast`, `Batch`). What it calls outside
--     (gcache, gRPC, the key store, the encoders, Tendermint's RPC) is the record `Services`, over a state
--     that those calls read and change. `Segments`, `Fits` and `Delivery` prove what `Results` says of
--     SendBatch; `Serves` says what the client needs of its services, from which `Prepared` and `Built`
--     show that a transaction is built, and `Accepted` that the batch is sent; `Sequence` is about the
--     account numbers. The calls of one client run one after the other, so the lock of an account has
--     nothing to do; Wrap keeps the error that it wraps.
--   * `Bank` is modules/bank/types.go and modules/bank/bank.go, over `Client`; `Staking` is
--     modules/staking/types.go and modules/staking/staking.go, with the delegations in the parent, the
--     validators in `Staking.Validators` and `Staking.Calls`, and modules/staking/delegation.go in
--     `Staking.Entries`. `Nft` is modules/nft/types.go, and `Nft.Calls` modules/nft/nft.go; `Nft.Accepted` says
--     which tokens can be issued.
--   * `Address` is types/address.go with utils/bech32/bech32.go and the prefixes of types/env.go, over the
--     library of Bech32 as a record; `Address.Read` reads the texts back.
--   * `UnknownFields` is codec/unknownproto/unknown_fields.go. protowire, the descriptors, the registry of
--     types and the decoder of `Any` are the record `Wire`. `UnknownFields.Fuel` has its end, `UnknownFields.Inside`
--     the messages that lie in a message, and `UnknownFields.Known` what holds of their fields.
--   * `Tx` is types/tx: the messages, `Tx.Signatures` (sigs.go), `Tx.Wrapper` and `Tx.Signed` (builder.go),
--     `Tx.Coding` (direct.go, encoder.go, decoder.go, over `UnknownFields`) and `Tx.Signers` (types.go, and who
--     pays). The generated encoders and decoders, the packing of values and Bech32 are the record `Proto`.
--     `Tx.Kept` and `Tx.Signing` are about the bytes that the builder keeps: a builder is one that a list
--     of calls has made (`Built`). `Tx.Returned` is about the signatures, `Tx.Everyone` about the signers.
--     A call that returns an error leaves the builder as if it had not read its bytes, which a later call
--     reads again.
--   * `Prelude` has what the others share: the native numbers with tests, integers on top of them
--     (`Prelude.Integer`), the length of a binary numeral (`Prelude.BitLen`), results, and
--     numbers as text (`Prelude.Text`).
--   * `Tests` has runs of the code, and the theorems at concrete inputs.
--
-- A function that can fail returns a `Result`: a value, a returned error or a panic. A `big.Int` is an
-- integer without bounds, and the bounds that the source checks by BitLen are written out. Slices are
-- lists; where the source changes a slice in place (`removeZeroCoins`) the backing array is a value of
-- its own. `sort.Sort` is an insertion sort, since the order of equal denominations is not promised and
-- the callers refuse equal ones. Loops are structural recursion but for some that run on fuel: the
-- binary search and the removal of zeros start with the length of the set, and their theorems hold for
-- that start, so it is enough; `Power` starts with the exponent, which each round halves. Newton's
-- method has the 100 rounds of the source.
-- SendBatch has eight rounds of its resizing loop, since a batch of 100 is halved to 0 in seven, and its
-- retries are counted down from the threshold of the source. A number is printed and cut into bytes with
-- itself as the fuel, which is more than its digits.
--
-- RejectUnknownFields has one more round for nested messages than there are bytes, since a message that
-- lies in another is shorter, and one round of its loop for each byte, since a tag has at least one.
--
-- Not modelled: JSON and binary encodings of amounts, the queries of
-- pools, validators and transactions, which call generated protobuf code; the keys of single signatures,
-- the amino and JSON forms of transactions, and the third-party code under utils/uuid and
-- crypto/keys/secp256k1/internal.
pub mod Prelude
pub mod Int
pub mod Dec
pub mod Denom
pub mod CoinSet
pub mod Coin
pub mod DecCoin
pub mod CoinType
pub mod CoinText
pub mod Swap
pub mod BitArray
pub mod HdPath
pub mod Tests
pub mod Events
pub mod Client
pub mod Address
pub mod Bank
pub mod Nft
pub mod Staking
pub mod Tx
pub mod UnknownFields
