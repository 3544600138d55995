-- ===== src/Transport.antt =====
-- `SwapTransport` (src/xian_dex_automation/submission.py): reads and rebroadcasts on the network of
-- a signed swap. Closing the client session is taken not to raise.
pub mod Silence
use text.Mathlib.Text.{find?}
use xian_dex_automation.Base.{
  ℕ, String, Bool, false, not, Option, none, some, is_some, text_or, str_eq, leb, if◌then◌else◌,
}
use xian_dex_automation.Base.Int.{ℤ, pos, negsuc}
use xian_dex_automation.Outcome.{Outcome, ok, raised, value_error}
use xian_dex_automation.Outcome
use xian_dex_automation.Submission.{PreparedSwap}
use xian_dex_automation.Runtime.{
  Action, ask, lift, ◌>>=◌, ◌>>◌, Request, Platform, Receipt, CheckTx, StateValue,
}

-- The decision of `nonce_consumed` on the committed value.
unfoldable pub consumed : StateValue → ℕ → Outcome Bool
consumed StateValue.absent nonce = ok false
consumed (StateValue.integer (pos n)) nonce = ok (leb nonce n)
consumed _ nonce = raised (value_error "invalid committed nonce")

-- A hash in the answer that is not the transaction's own.
unfoldable pub wrong_hash : (String → String) → Option String → String → Bool
wrong_hash upper none tx_hash = false
wrong_hash upper (some h) tx_hash = not (str_eq (upper h) tx_hash)

unfoldable pub rejection : (String → String) → String → Outcome (Option String)
rejection lower message =
    if is_some (find? (lower message) "tx already exists")
    then raised (value_error "transaction may already be pending or committed")
    else ok (some message)

-- The reading of a broadcast's answer: `none` accepts, a message is a definitive rejection.
unfoldable pub read_code :
    (String → String) → (String → String) → String → CheckTx → Option ℤ → Outcome (Option String)
unfolding wrong_hash rejection
read_code upper lower tx_hash r none =
    raised (value_error "CheckTx result is missing a valid status code")
read_code upper lower tx_hash r (some code) =
    if wrong_hash upper r.hash tx_hash
    then raised (value_error "RPC transaction hash mismatch")
    else elim code [
      | pos n ↦ if leb n 0 then ok none else rejection lower (text_or r.log "transaction rejected")
      | negsuc n ↦ rejection lower (text_or r.log "transaction rejected")
    ]

unfoldable pub read_check :
    (String → String) → (String → String) → String → CheckTx → Outcome (Option String)
unfolding read_code
read_check upper lower tx_hash r =
    if r.has_error
    then raised (value_error "RPC did not return a definitive CheckTx result")
    else read_code upper lower tx_hash r r.code

unfoldable pub read_receipt : String → Option Receipt → Outcome (Option Receipt)
read_receipt tx_hash none = ok none
read_receipt tx_hash (some r) =
    if str_eq r.tx_hash tx_hash
    then ok (some r)
    else raised (value_error "receipt transaction hash mismatch")

module _ (p : Platform) (s : PreparedSwap) where
  -- `__aenter__`.
  unfoldable pub enter : Action (Unit {0})
  enter = ask (Request.connect s.rpc_url) (λ h. p.net.connect h s.rpc_url)

  unfoldable pub same_chain : String → Outcome (Unit {0})
  same_chain id =
      Outcome.raise_if (not (str_eq id s.chain_id))
        (value_error "RPC chain does not match the persisted transaction chain")

  unfoldable pub check_chain : Action (Unit {0})
  unfolding same_chain
  check_chain = do
    id ← ask (Request.chain_id s.rpc_url) (λ h. p.net.chain_id h s.rpc_url)
    lift (same_chain id)

  unfoldable pub nonce_consumed : Action Bool
  unfolding check_chain consumed
  nonce_consumed = do
    check_chain
    payload ← lift (p.sdk.payload s.transaction.json_bytes)
    value ←
        ask (Request.committed_nonce s.rpc_url payload.sender)
          (λ h. p.net.get_state h s.rpc_url payload.sender)
    lift (consumed value payload.nonce)

  unfoldable pub broadcast : Action (Option String)
  unfolding check_chain read_check
  broadcast = do
    check_chain
    r ←
        ask (Request.broadcast s.rpc_url s.transaction)
          (λ h. p.net.broadcast h s.rpc_url s.transaction)
    lift (read_check p.str.upper p.str.lower s.transaction.tx_hash r)

  unfoldable pub lookup : Action (Option Receipt)
  unfolding check_chain read_receipt
  lookup = do
    check_chain
    r ←
        ask (Request.wait_for_tx s.rpc_url s.transaction.tx_hash)
          (λ h. p.net.wait_for_tx h s.rpc_url s.transaction.tx_hash)
    lift (read_receipt s.transaction.tx_hash r)
