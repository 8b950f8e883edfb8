-- ===== src/Payouts/Sent.antt =====
-- What a payment that PayPal accepts amounts to: the fee, and what is left of it.
use mathlib.Core.Path.{subst}
use labrinth.Base.{
  String, ◌≡◌, ◌⊎◌, inl, inr, refl, sym, ap, ◌∙◌, true, false, Option, none, some, ltb, str_eq,
  if◌then◌else◌, ok, ok_or, guard, arith, Bool-cases, bind-ok, ok_or-ok,
}
use labrinth.Api.{env, payments}
use labrinth.Payouts.{
  Money, PaypalCredential, PayoutsQueue, PayoutItem, Answer, unreachable, refused, accepted, Env,
  fee, refresh_token, without_fee, leftover, paid, send_payout,
}

module _ {Decimal : Type 0} (money : Money Decimal) (e : Env Decimal) where
  -- The fee of a payment: a quarter for Venmo, else two percent, but at least a quarter and at most
  -- twenty.
  pub data KeptBack (wallet : String) (amount : Decimal) : Decimal → Type 0 where
    venmo : str_eq wallet "Venmo" ≡ true → KeptBack wallet amount money.quarter
    lowest :
        str_eq wallet "Venmo" ≡ false
        → money.lt (money.two_percent amount) money.quarter ≡ true
        → KeptBack wallet amount money.quarter
    share :
        str_eq wallet "Venmo" ≡ false
        → money.lt (money.two_percent amount) money.quarter ≡ false
        → money.lt money.twenty (money.two_percent amount) ≡ false
        → KeptBack wallet amount (money.two_percent amount)
    highest :
        str_eq wallet "Venmo" ≡ false
        → money.lt money.twenty (money.two_percent amount) ≡ true
        → KeptBack wallet amount money.twenty

  -- What the balance keeps of the fee, by the fee that PayPal says it took: what was not taken,
  -- where this is above zero, and nothing for Venmo or where the fee cannot be read.
  pub data GivenBack (wallet : String) (kept : Decimal) : Option Decimal → Decimal → Type 0 where
    unread : GivenBack wallet kept none money.zero_dollars
    refund :
        (taken : Decimal)
        → str_eq wallet "Venmo" ≡ false
        → money.lt money.zero_dollars (money.sub kept taken) ≡ true
        → GivenBack wallet kept (some taken) (money.sub kept taken)
    no_refund :
        (taken : Decimal)
        → str_eq wallet "Venmo" ≡ true
        → GivenBack wallet kept (some taken) money.zero_dollars
    all_taken :
        (taken : Decimal)
        → money.lt money.zero_dollars (money.sub kept taken) ≡ false
        → GivenBack wallet kept (some taken) money.zero_dollars

  -- The credential of the queue, or a new one where it has expired.
  abbrev pub IsCurrent : PayoutsQueue → PaypalCredential → Type 0
  IsCurrent q credential =
      ((ltb q.credential_expires e.now ≡ false) × (credential ≡ q.credential))
      ⊎ ((ltb q.credential_expires e.now ≡ true) × (e.new_credential ≡ some credential))

  pub fee-KeptBack :
      (wallet : String) (amount : Decimal) → KeptBack wallet amount (fee money e wallet amount)
  unfolding fee
  fee-KeptBack wallet amount = elim (Bool-cases (str_eq wallet "Venmo")) [
    | inl v ↦ rw v (venmo v)
    | inr v ↦ elim (Bool-cases (money.lt (money.two_percent amount) money.quarter)) [
      | inl low ↦ rw (v, low, money.quarter_bound) (lowest v low)
      | inr low ↦ elim (Bool-cases (money.lt money.twenty (money.two_percent amount))) [
        | inl high ↦ rw (v, low, high) (highest v high)
        | inr high ↦ rw (v, low, high) (share v low high)
      ]
    ]
  ]

  leftover-GivenBack :
      (wallet : String) (kept : Decimal) (taken : Option Decimal)
      → GivenBack wallet kept taken (leftover money e wallet kept taken)
  unfolding leftover
  leftover-GivenBack wallet kept none = unread
  leftover-GivenBack wallet kept (some taken) = elim (Bool-cases (str_eq wallet "Venmo")) [
    | inl v ↦ rw v (no_refund taken v)
    | inr v ↦ elim (Bool-cases (money.lt money.zero_dollars (money.sub kept taken))) [
      | inl more ↦ rw (v, more) (refund taken v more)
      | inr less ↦ rw (v, less) (all_taken taken less)
    ]
  ]

  zero_bound : money.lt money.zero_dollars money.zero_dollars ≡ false
  zero_bound = elim (Bool-cases (money.lt money.zero_dollars money.zero_dollars)) [
    | inl h ↦ money.lt_asym money.zero_dollars money.zero_dollars h
    | inr h ↦ h
  ]

  -- What is left of the fee is not below zero.
  pub leftover_bound :
      {wallet : String} {kept left : Decimal} {taken : Option Decimal}
      → GivenBack wallet kept taken left
      → money.lt left money.zero_dollars ≡ false
  leftover_bound unread = zero_bound
  leftover_bound {kept = kept} (refund taken v more) =
      money.lt_asym money.zero_dollars (money.sub kept taken) more
  leftover_bound (no_refund taken v) = zero_bound
  leftover_bound (all_taken taken less) = zero_bound

  paid-ok :
      (wallet : String) (kept left : Decimal) (answer : Answer Decimal)
      → paid money e wallet kept answer ≡ ok left
      → (taken : Option Decimal) × (answer ≡ accepted taken)
        × (leftover money e wallet kept taken ≡ left)
  paid-ok wallet kept left unreachable h = absurd (ground arith)
  paid-ok wallet kept left (refused none) h = absurd (ground arith)
  paid-ok wallet kept left (refused (some message)) h = absurd (ground arith)
  paid-ok wallet kept left (accepted taken) h = (taken, refl, ground arith)

  refreshed-IsCurrent :
      (q q' : PayoutsQueue)
      → (if ltb q.credential_expires e.now then refresh_token money e q else ok q) ≡ ok q'
      → IsCurrent q q'.credential
  unfolding refresh_token
  refreshed-IsCurrent q q' h = elim (Bool-cases (ltb q.credential_expires e.now)) [
    | inr f ↦
        let same : q ≡ q' = ground arith in
        inl (f, ap (λ (x : PayoutsQueue). x.credential) (sym same))
    | inl f ↦
        let refreshed : refresh_token money e q ≡ ok q' = ground arith in
        let (credential, got, h1) =
          bind-ok (ok_or e.new_credential (payments "Error while authenticating with PayPal")) _ q'
            (unfold refresh_token in refreshed) in
        inr (f, ground (arith, ok_or-ok e.new_credential _ credential got))
  ]

  -- A payment that succeeds is positive, without the fee, sent with a credential that is not
  -- expired, and what is left of the fee is as PayPal's answer says.
  pub send_payout_cases :
      (item sent : PayoutItem Decimal) (q q' : PayoutsQueue) (left : Decimal)
      → send_payout money e item q ≡ ok (q', sent, left)
      → (taken : Option Decimal) × (sent ≡ without_fee money e item)
        × (money.lt money.zero_dollars sent.value ≡ true)
        × IsCurrent q q'.credential
        × (e.pay q'.credential sent ≡ accepted taken)
        × GivenBack item.recipient_wallet (fee money e item.recipient_wallet item.value) taken left
  unfolding send_payout
  send_payout_cases item sent q q' left h =
      let (q1, fresh, h1) =
        bind-ok (if ltb q.credential_expires e.now then refresh_token money e q else ok q) _
          (q', sent, left) h in
      let (_, positive, h2) =
        bind-ok (guard (money.lt money.zero_dollars (without_fee money e item).value) _) _
          (q', sent, left) h1 in
      let (url, _, h3) = bind-ok (ok_or e.api_url env) _ (q', sent, left) h2 in
      let kept = fee money e item.recipient_wallet item.value in
      let (l, done, h4) =
        bind-ok
          (paid money e item.recipient_wallet kept (e.pay q1.credential (without_fee money e item)))
          _ (q', sent, left) h3 in
      let same : sent ≡ without_fee money e item = ground arith in
      let queue : q' ≡ q1 = ground arith in
      let all : l ≡ left = ground arith in
      let (taken, answer, is_left) = paid-ok item.recipient_wallet kept l _ done in
      (
        taken,
        same,
        rw same (ground arith),
        subst (λ (x : PayoutsQueue). IsCurrent q x.credential) (sym queue)
            (refreshed-IsCurrent q q1 fresh),
        ap (λ (x : PayoutsQueue). e.pay x.credential sent) queue
            ∙ ap (e.pay q1.credential) same
            ∙ answer,
        subst (GivenBack item.recipient_wallet kept taken) (is_left ∙ all)
            (leftover-GivenBack item.recipient_wallet kept taken),
      )
