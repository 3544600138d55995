-- ===== src/Transport/Silence.antt =====
-- What the reads of the transport keep (submission.py).
use xian_dex_automation.Submission.{PreparedSwap}
use xian_dex_automation.Runtime.{World, Platform}
use xian_dex_automation.Runtime.Keeps.{Keeps, keeps_rules, Keeps-Silent, IsQuiet}
use xian_dex_automation.Transport.{enter, check_chain, nonce_consumed, lookup}

module _ {P : World → Type 0} (q : IsQuiet P) (p : Platform) (s : PreparedSwap) where
  pub enter-Keeps : Keeps P (enter p s)
  unfolding enter
  enter-Keeps = Keeps-Silent q _ _ tt

  pub check_chain-Keeps : Keeps P (check_chain p s)
  unfolding check_chain
  check_chain-Keeps = search (keeps_rules, Keeps-Silent q, tt)

  pub nonce_consumed-Keeps : Keeps P (nonce_consumed p s)
  unfolding nonce_consumed
  nonce_consumed-Keeps = search (keeps_rules, Keeps-Silent q, tt)

  pub lookup-Keeps : Keeps P (lookup p s)
  unfolding lookup
  lookup-Keeps = search (keeps_rules, Keeps-Silent q, tt)
