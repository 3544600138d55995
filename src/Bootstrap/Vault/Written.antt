-- ===== src/Bootstrap/Vault/Written.antt =====
-- The writes of an owner's session that ends well (scripts/bootstrap_strategy_vault.py).
use xian_dex_automation.Base.{
  String, Bool, false, not, ◌&&◌, ◌||◌, List, [], ◌∷◌, ◌++◌, Option, none, some, is_none, is_some,
  ◌≡◌, subst, inl, inr, arith, if◌then◌else◌,
}
use xian_dex_automation.Base.Int.{ltb_ℤ}
use xian_dex_automation.Decimal.{Decimal, Context}
use xian_dex_automation.Outcome.{Outcome, ok, Outcome-cases}
use xian_dex_automation.Config.{StrategyVaultConfig}
use xian_dex_automation.Bootstrap.{
  Arguments, Strategy, Place, Outside, Write, deploy, approve, deposit_token, pause_switch, pure,
  ◌>>=◌,
}
use xian_dex_automation.Bootstrap.Returns.{>>=-ok}
use xian_dex_automation.Bootstrap.Setup.{Confirmation}
use xian_dex_automation.Bootstrap.Vault.{
  Entry, Session, open_vault, deposit_and_resume, obtain_vault, obtain, deploy_vault, reuse_vault,
  make_deposit, make_up, deposit_delta, make_running, unpause_vault, send_unpause, confirmed,
  deploy_arguments, is_paused, balance_value,
}

-- The place after more writes, newest first.
abbrev pub wrote_all : List Write → Place → Place
wrote_all ws s = record s { writes = ws ++ s.writes }

module _ (c : Context) (to_decimal : String → Outcome Decimal) (o : Outside) (a : Arguments)
    (strategy : StrategyVaultConfig) (reviewed : String) where
  abbrev pub deploy_writes : Option String → List Write
  deploy_writes none =
      deploy a.contract_name reviewed (deploy_arguments a strategy.keeper_address) ∷ []
  deploy_writes (some existing) = []

  abbrev pub deposit_writes : Decimal → List Write
  deposit_writes balance =
      let delta = o.sub a.deposit_amount balance in
      if ltb_ℤ balance a.deposit_amount
      then deposit_token a.contract_name a.src delta ∷ approve a.src delta a.contract_name ∷ []
      else []

  -- The vault may be unpaused: it is new, or the owner has said so.
  abbrev pub may_resume : Option String → Bool
  may_resume existing = is_none existing || a.unpause_existing

  abbrev pub resume_writes : Option String → Bool → List Write
  resume_writes existing paused =
      if paused && may_resume existing then pause_switch a.contract_name false ∷ [] else []

  confirmed-writes :
      (label : String) (w : Write) (s : Place) {d : Confirmation} {t : Place}
      → confirmed c to_decimal o label w s ≡ (ok d, t)
      → t ≡ wrote_all (w ∷ []) s
  unfolding confirmed ◌>>=◌
  confirmed-writes label w s h = ground arith

  obtain-writes :
      (existing : Option String) (s : Place) {v : List Entry × Bool} {t : Place}
      → obtain c to_decimal o existing a strategy reviewed s ≡ (ok v, t)
      → (t ≡ wrote_all (deploy_writes existing) s) × (v.1 ≡ is_none existing)
  unfolding obtain deploy_vault reuse_vault confirmed ◌>>=◌
  obtain-writes none s h = ground arith
  obtain-writes (some existing) s h = ground arith

  make_up-writes :
      (balance : Decimal) (s : Place) {es : List Entry} {t : Place}
      → make_up c to_decimal o a balance s ≡ (ok es, t)
      → t ≡ wrote_all (deposit_writes balance) s
  unfolding make_up deposit_delta confirmed ◌>>=◌
  make_up-writes balance s h = ground arith

  unpause_vault-writes :
      (existing : Option String) (paused : Bool) (s : Place) {v : List Entry × Bool} {t : Place}
      → unpause_vault c to_decimal o a (is_none existing) paused s ≡ (ok v, t)
      → (t ≡ wrote_all (resume_writes existing paused) s)
        × (v.1 ≡ (paused && not (may_resume existing)))
        × ((v.1 && a.execute_swap) ≡ false)
  unfolding unpause_vault send_unpause confirmed ◌>>=◌
  unpause_vault-writes existing paused s h = ground arith

  obtain_vault-writes :
      (s : Place) {v : List Entry × Bool} {t : Place}
      → obtain_vault c to_decimal o a strategy reviewed s ≡ (ok v, t)
      → (existing : Option String) × (o.get_contract_source s a.contract_name ≡ ok existing)
        × (t ≡ wrote_all (deploy_writes existing) s)
        × (v.1 ≡ is_none existing)
  unfolding obtain_vault ◌>>=◌
  obtain_vault-writes s {v} {t} h = elim (Outcome-cases (o.get_contract_source s a.contract_name)) [
    | inl (existing, e) ↦
        let (writes, new) = obtain-writes existing s {v = v} {t = t} (ground (arith, h)) in
        (existing, e, writes, new)
    | inr (inl e) ↦ absurd (ground arith)
    | inr (inr (x, e)) ↦ absurd (ground arith)
  ]

  make_deposit-writes :
      (s : Place) {es : List Entry} {t : Place}
      → make_deposit c to_decimal o a s ≡ (ok es, t)
      → (text : Option String) × (balance : Decimal) × (o.balance_of s a.src a.contract_name
          ≡ ok text)
        × (balance_value to_decimal text ≡ ok balance)
        × (t ≡ wrote_all (deposit_writes balance) s)
  unfolding make_deposit ◌>>=◌
  make_deposit-writes s {es} {t} h = elim (Outcome-cases (o.balance_of s a.src a.contract_name)) [
    | inl (text, e) ↦ elim (Outcome-cases (balance_value to_decimal text)) [
      | inl (balance, e') ↦
          (text, balance, e, e', make_up-writes balance s {es = es} {t = t} (ground (arith, h)))
      | inr (inl e') ↦ absurd (ground arith)
      | inr (inr (x, e')) ↦ absurd (ground arith)
    ]
    | inr (inl e) ↦ absurd (ground arith)
    | inr (inr (x, e)) ↦ absurd (ground arith)
  ]

  make_running-writes :
      (existing : Option String) (s : Place) {v : List Entry × Bool} {t : Place}
      → make_running c to_decimal o a (is_none existing) s ≡ (ok v, t)
      → (status : Strategy) × (o.get_strategy s a.contract_name ≡ ok status)
        × (t ≡ wrote_all (resume_writes existing (is_paused (status "paused"))) s)
        × (v.1 ≡ (is_paused (status "paused") && not (may_resume existing)))
        × ((v.1 && a.execute_swap) ≡ false)
  unfolding make_running ◌>>=◌
  make_running-writes existing s {v} {t} h =
      elim (Outcome-cases (o.get_strategy s a.contract_name)) [
        | inl (status, e) ↦
            let (writes, stays, swaps) =
              unpause_vault-writes existing (is_paused (status "paused")) s {v = v} {t = t}
                (ground (arith, h)) in
            (status, e, writes, stays, swaps)
        | inr (inl e) ↦ absurd (ground arith)
        | inr (inr (x, e)) ↦ absurd (ground arith)
      ]

  deposit_and_unpause_vault-writes :
      (existing : Option String) (first : List Entry) (s : Place) {r : Session} {t : Place}
      → deposit_and_resume c to_decimal o a (first, is_none existing) s ≡ (ok r, t)
      → (text : Option String) × (balance : Decimal) × (status : Strategy) × (o.balance_of s a.src
            a.contract_name
          ≡ ok text)
        × (balance_value to_decimal text ≡ ok balance)
        × (o.get_strategy (wrote_all (deposit_writes balance) s) a.contract_name ≡ ok status)
        × (t
            ≡ wrote_all
                (resume_writes existing (is_paused (status "paused")))
                (wrote_all (deposit_writes balance) s))
        × (r.reused ≡ is_some existing)
        × (r.remains_paused ≡ (is_paused (status "paused") && not (may_resume existing)))
        × ((r.remains_paused && a.execute_swap) ≡ false)
  unfolding deposit_and_resume pure
  deposit_and_unpause_vault-writes existing first s {r} {t} h =
      let (es, h2, k2) = >>=-ok _ _ s h in
      let (text, balance, asked, read, w2) = make_deposit-writes s h2 in
      let (v, h3, k3) = >>=-ok _ _ _ k2 in
      let (status, reported, w3, stays, swaps) = make_running-writes existing _ h3 in
      (
        text,
        balance,
        status,
        asked,
        read,
        rw (← w2) reported,
        ground arith,
        ground arith,
        ground arith,
        ground arith,
      )

  -- The answers that a session got, in the order of its questions, and what it made of them.
  pub record Opened (s : Place) (r : Session) (t : Place) : Type 0 where
    pub existing : Option String
    pub text : Option String
    pub balance : Decimal
    pub status : Strategy
    pub found : o.get_contract_source s a.contract_name ≡ ok existing
    pub asked : o.balance_of (wrote_all (deploy_writes existing) s) a.src a.contract_name ≡ ok text
    pub read : balance_value to_decimal text ≡ ok balance
    pub reported :
        o.get_strategy
          (wrote_all (deposit_writes balance) (wrote_all (deploy_writes existing) s))
          a.contract_name
        ≡ ok status
    pub writes :
        t
        ≡ wrote_all
            (resume_writes existing (is_paused (status "paused")))
            (wrote_all (deposit_writes balance) (wrote_all (deploy_writes existing) s))
    pub reused : r.reused ≡ is_some existing
    pub remains_paused :
        r.remains_paused ≡ (is_paused (status "paused") && not (may_resume existing))
    pub swappable : (r.remains_paused && a.execute_swap) ≡ false

-- An owner's session that ends well has written exactly this, in order: the deployment, if there was
-- no contract of the name; an approval and a deposit of what the balance lacked, if it lacked any;
-- and the unpausing, if the vault then said that it was paused, and was new or the owner allowed
-- it. Otherwise a paused vault stays paused, and then no swap was asked for.
pub open_vault-Opened :
    (c : Context) (to_decimal : String → Outcome Decimal) (o : Outside) (a : Arguments)
    (strategy : StrategyVaultConfig) (reviewed : String) (s : Place) (r : Session) (t : Place)
    → open_vault c to_decimal o a strategy reviewed s ≡ (ok r, t)
    → Opened c to_decimal o a strategy reviewed s r t
unfolding open_vault deposit_and_resume
open_vault-Opened c to_decimal o a strategy reviewed s r t h =
    let (v, h1, k1) = >>=-ok _ _ s h in
    let (existing, found, w1, new) = obtain_vault-writes c to_decimal o a strategy reviewed s h1 in
    let next =
      λ (new : Bool) (u : Place). deposit_and_resume c to_decimal o a (v.0, new) u ≡ (ok r, t) in
    let k2 =
      subst (next (is_none existing)) w1
        (subst (λ b. next b (obtain_vault c to_decimal o a strategy reviewed s).1) new k1) in
    let (text, balance, status, asked, read, reported, writes, reused, stays, swaps) =
      deposit_and_unpause_vault-writes c to_decimal o a strategy reviewed existing v.0 _ k2 in
    record {
      existing = existing;
      text = text;
      balance = balance;
      status = status;
      found = found;
      asked = asked;
      read = read;
      reported = reported;
      writes = writes;
      reused = reused;
      remains_paused = stays;
      swappable = swaps;
    }
