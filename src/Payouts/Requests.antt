-- ===== src/Payouts/Requests.antt =====
-- A request for a payout: who is paid, and whose balance pays.
use mathlib.Core.Path.{subst}
use labrinth.Base.{
  ℕ, String, ◌≡◌, inl, inr, refl, sym, ap, ◌∙◌, true, false, ◌||◌, Option, none, some, [], ◌∷◌,
  ◌++◌, ◌==◌, if◌then◌else◌, ok, ok_or, guard, arith, Bool-cases, bind-ok, ok_or-ok, All, All-map,
}
use labrinth.Users.{DbUser, User, UserPayoutData}
use labrinth.Users.Find.{get_user}
use labrinth.Users.Role
use labrinth.Users.Wallet
use labrinth.Users.Wallet.{RecipientWallet}
use labrinth.Api.{no_content}
use labrinth.Payouts.{
  Money, PayoutsQueue, PayoutItem, accepted, Env, Db, fee, without_fee, send_payout, debit,
  payout_item, request_enrolled, request_found, user_payouts_request,
}
use labrinth.Payouts.Sent.{
  KeptBack, GivenBack, IsCurrent, leftover_bound, fee-KeptBack, send_payout_cases,
}

module _ {Decimal : Type 0} (money : Money Decimal) (e : Env Decimal) where
  -- The payment goes to the address of the user who asks, less than this user's balance was asked
  -- for, and the balance of the user who was named pays; the fee and what is given back of it are
  -- those of the wallet of the user who asks and of PayPal's answer.
  pub record Paid (user : User Decimal) (string : String) (amount : Decimal) (db db' : Db Decimal)
      : Type 0 where
    pub target : DbUser Decimal
    pub payout_data : UserPayoutData Decimal
    pub sent : PayoutItem Decimal
    pub left : Decimal
    pub wallet : RecipientWallet
    pub kept : Decimal
    pub taken : Option Decimal
    pub found : get_user e.to_lowercase string db.users ≡ some target
    pub may_ask : (Role.is_admin user.role || user.id == target.id) ≡ true
    pub enrolled : user.payout_data ≡ some payout_data
    pub covered : money.lt amount payout_data.balance ≡ true
    pub to_asker : payout_data.payout_address ≡ some sent.receiver
    pub positive : money.lt money.zero_dollars sent.value ≡ true
    pub has_wallet : payout_data.payout_wallet ≡ some wallet
    pub kept_back : KeptBack money e (Wallet.as_str_api wallet) amount kept
    pub value : sent.value ≡ money.round_cents (money.sub amount kept)
    pub current : IsCurrent money e db.queue db'.queue.credential
    pub answered : e.pay db'.queue.credential sent ≡ accepted taken
    pub given_back : GivenBack money e (Wallet.as_str_api wallet) kept taken left
    pub left_bound : money.lt left money.zero_dollars ≡ false
    pub paid : db'.payments ≡ db.payments ++ sent ∷ []
    pub debited : db'.users ≡ debit money e target.id (money.sub amount left) db.users
    pub recorded : db'.historical_payouts ≡ db.historical_payouts ++ (target.id, amount) ∷ []

  enrolled_cases :
      (id : ℕ) (amount balance : Decimal) (item : PayoutItem Decimal) (db db' : Db Decimal)
      → request_enrolled money e id amount balance item db ≡ ok (no_content, db')
      → (sent : PayoutItem Decimal) × (left : Decimal) × (taken : Option Decimal) × (money.lt amount
            balance
          ≡ true)
        × (sent ≡ without_fee money e item)
        × (money.lt money.zero_dollars sent.value ≡ true)
        × IsCurrent money e db.queue db'.queue.credential
        × (e.pay db'.queue.credential sent ≡ accepted taken)
        × GivenBack money e item.recipient_wallet
            (fee money e item.recipient_wallet item.value)
            taken
            left
        × (db'.payments ≡ db.payments ++ sent ∷ [])
        × (db'.users ≡ debit money e id (money.sub amount left) db.users)
        × (db'.historical_payouts ≡ db.historical_payouts ++ (id, amount) ∷ [])
  unfolding request_enrolled
  enrolled_cases id amount balance item db db' h =
      let (_, covered, h1) = bind-ok (guard (money.lt amount balance) _) _ (no_content, db') h in
      let ((q, sent, left), done, h2) =
        bind-ok (send_payout money e item db.queue) _ (no_content, db') h1 in
      let (taken, same, positive, current, answer, given) =
        send_payout_cases money e item sent db.queue q left done in
      let queue : db'.queue ≡ q = ground arith in
      (
        sent,
        left,
        taken,
        ground arith,
        same,
        positive,
        subst (λ (x : PayoutsQueue). IsCurrent money e db.queue x.credential) (sym queue) current,
        ap (λ (x : PayoutsQueue). e.pay x.credential sent) queue ∙ answer,
        given,
        ground arith,
        ground arith,
        ground arith,
      )

  receiver_kept :
      (item sent : PayoutItem Decimal)
      → sent ≡ without_fee money e item
      → sent.receiver ≡ item.receiver
  unfolding without_fee
  receiver_kept item sent same = ap (λ (i : PayoutItem Decimal). i.receiver) same

  value_without_fee :
      (item sent : PayoutItem Decimal)
      → sent ≡ without_fee money e item
      → sent.value
        ≡ money.round_cents (money.sub item.value (fee money e item.recipient_wallet item.value))
  unfolding without_fee
  value_without_fee item sent same = ap (λ (i : PayoutItem Decimal). i.value) same

  found_cases :
      (user : User Decimal) (string : String) (amount : Decimal) (found : Option (DbUser Decimal))
      (db db' : Db Decimal)
      → get_user e.to_lowercase string db.users ≡ found
      → request_found money e user amount found db ≡ ok (no_content, db')
      → Paid user string amount db db'
  found_cases user string amount none db db' f h = absurd (ground arith)
  found_cases user string amount (some target) db db' f h =
      let (_, may, h1) =
        bind-ok (guard (Role.is_admin user.role || user.id == target.id) _) _ (no_content, db') h in
      let (d, enrolled, h2) = bind-ok (ok_or user.payout_data _) _ (no_content, db') h1 in
      let (address, has, h3) = bind-ok (ok_or d.payout_address _) _ (no_content, db') h2 in
      let (wallet_type, _, h4) = bind-ok (ok_or d.payout_wallet_type _) _ (no_content, db') h3 in
      let (wallet, has_wallet, h5) = bind-ok (ok_or d.payout_wallet _) _ (no_content, db') h4 in
      let item = payout_item money e target.id amount address wallet_type wallet in
      let (
        sent, left, taken, covered, same, positive, current, answer, given, paid, debited, recorded,
      ) =
        enrolled_cases target.id amount d.balance item db db' h5 in
      record {
        target = target;
        payout_data = d;
        sent = sent;
        left = left;
        found = f;
        may_ask = ground arith;
        enrolled = ok_or-ok user.payout_data _ d enrolled;
        covered = covered;
        to_asker =
            ok_or-ok d.payout_address _ address has ∙ ap some (sym (receiver_kept _ sent same));
        positive = positive;
        wallet = wallet;
        kept = fee money e (Wallet.as_str_api wallet) amount;
        taken = taken;
        has_wallet = ok_or-ok d.payout_wallet _ wallet has_wallet;
        kept_back = fee-KeptBack money e (Wallet.as_str_api wallet) amount;
        value = value_without_fee item sent same;
        current = current;
        answered = answer;
        given_back = given;
        left_bound = leftover_bound money e given;
        paid = paid;
        debited = debited;
        recorded = recorded;
      }

  debited_bound :
      (u : DbUser Decimal) (own target : ℕ) (balance amount left : Decimal)
      → (own == target) ≡ true
      → money.lt amount balance ≡ true
      → money.lt left money.zero_dollars ≡ false
      → (u.id ≡ own → u.balance ≡ balance)
      → (if u.id == target
          then record u { balance = money.sub u.balance (money.sub amount left) }
          else u).id
        ≡ own
      → money.lt money.zero_dollars
          (if u.id == target
            then record u { balance = money.sub u.balance (money.sub amount left) }
            else u).balance
        ≡ true
  debited_bound u own target balance amount left same covered bound had =
      elim (Bool-cases (u.id == target)) [
        | inl e ↦ rw e (λ here. rw (had here) (money.lt_sub amount balance left covered bound))
        | inr e ↦ rw e (λ here. absurd (ground arith))
      ]

  -- A request that succeeds pays the amount less the fee, rounded and positive, to the address of the
  -- user who asks, who was enrolled and whose balance is above the amount asked for; PayPal accepted
  -- the payment, with the credential of the queue or, where that had expired, a new one. The fee is a
  -- quarter if the wallet of the user who asks is Venmo, and else two percent, at least a quarter and
  -- at most twenty. Only the balance of the user that is found for the text of the path is lowered:
  -- by the amount less what PayPal did not take of the fee, where it says what it took, this is above
  -- zero and the wallet is not Venmo, and else by the amount. The amount is recorded for that user.
  -- The two users differ only if the first is an administrator.
  pub user_payouts_request-Paid :
      (scopes : ℕ) (user : User Decimal) (string : String) (amount : Decimal) (db db' : Db Decimal)
      → user_payouts_request money e (ok (scopes, user)) string amount db ≡ ok (no_content, db')
      → Paid user string amount db db'
  unfolding user_payouts_request
  user_payouts_request-Paid scopes user string amount db db' h =
      found_cases user string amount (get_user e.to_lowercase string db.users) db db' refl h

  -- A user who is no administrator does not fall to zero by a request that succeeds: where the rows
  -- of the user hold the balance that the request was checked against, the new balance is positive.
  pub own_balance_bound :
      (scopes : ℕ) (user : User Decimal) (d : UserPayoutData Decimal) (string : String)
      (amount : Decimal) (db db' : Db Decimal)
      → user_payouts_request money e (ok (scopes, user)) string amount db ≡ ok (no_content, db')
      → Role.is_admin user.role ≡ false
      → user.payout_data ≡ some d
      → All (λ u. u.id ≡ user.id → u.balance ≡ d.balance) db.users
      → All (λ u. u.id ≡ user.id → money.lt money.zero_dollars u.balance ≡ true) db'.users
  own_balance_bound scopes user d string amount db db' h no_admin has rows =
      let p = user_payouts_request-Paid scopes user string amount db db' h in
      let own : (user.id == p.target.id) ≡ true = ground (arith, p.may_ask) in
      let same : d ≡ p.payout_data = ground (arith, p.enrolled) in
      rw p.debited (
        All-map (λ u. u.id ≡ user.id → u.balance ≡ d.balance)
          (λ u. u.id ≡ user.id → money.lt money.zero_dollars u.balance ≡ true) _ db.users
          (λ u.
            debited_bound u user.id p.target.id d.balance amount p.left own (rw same p.covered)
              p.left_bound)
          rows)
