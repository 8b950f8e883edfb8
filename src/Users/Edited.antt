-- ===== src/Users/Edited.antt =====
-- What an edit of a user may change.
use labrinth.Base.{
  ℕ, String, ◌≡◌, ◌⊎◌, inl, inr, refl, ap, ◌∙◌, Bool, true, false, not, any, ◌==◌, ◌&&◌, str_eq,
  Option, none, some, Result, ok, arith, bind-ok,
}
use labrinth.Scopes
use labrinth.Users.{DbUser}
use labrinth.Users.Find.{get_user}
use labrinth.Users.Role
use labrinth.Api.{ApiError}
use labrinth.Users.Edit.{
  EditPayoutData, EditUser, Editor, is_free, edit_username, edit_name, edit_bio, edit_role,
  edit_badges, edit_payout_data, edit_row,
}

-- The columns that no edit changes.
abbrev pub fixed :
    {Decimal : Type 0}
    → DbUser Decimal
    → ℕ × Decimal × Option String × Bool × Option String × Option String
fixed u = (u.id, u.balance, u.email, u.email_verified, u.password, u.totp_secret)

module _ {Decimal : Type 0} (c : Editor Decimal) where
  -- The search by id or by name, whatever the case, finds nobody or the user who edits, and no row
  -- but that of the user who is edited has exactly this name.
  abbrev pub IsAvailable : ℕ → String → Type 0
  IsAvailable id name =
      (is_free c (get_user c.env.to_lowercase name c.users) ≡ true)
      × (any (λ o. not (o.id == id) && str_eq o.username name) c.users ≡ false)

  pub record Changed (old new : DbUser Decimal) : Type 0 where
    pub same_fixed : fixed new ≡ fixed old
    -- only an administrator changes the role and the badges
    pub role_kept : Role.is_admin c.user.role ≡ false → new.role ≡ old.role
    pub badges_kept : Role.is_admin c.user.role ≡ false → new.badges ≡ old.badges
    -- without the scope for payouts, the address is removed at most
    pub address_kept :
        c.flags.contains c.scopes Scopes.payouts_write ≡ false
        → (new.payout_address ≡ old.payout_address) ⊎ (new.payout_address ≡ none)
    pub name_free : (new.username ≡ old.username) ⊎ IsAvailable old.id new.username

  other_columns :
      {old new : DbUser Decimal}
      → fixed new ≡ fixed old
      → new.role ≡ old.role
      → new.badges ≡ old.badges
      → new.payout_address ≡ old.payout_address
      → new.username ≡ old.username
      → Changed old new
  other_columns same role badges address name = record {
    same_fixed = same;
    role_kept = λ h. role;
    badges_kept = λ h. badges;
    address_kept = λ h. inl address;
    name_free = inl name;
  }

  Changed-refl : (u : DbUser Decimal) → Changed u u
  Changed-refl u = other_columns refl refl refl refl refl

  unchanged :
      {u u' : DbUser Decimal}
      → ◌≡◌ {A = Result ApiError (DbUser Decimal)} (ok u) (ok u')
      → Changed u u'
  unchanged {u} {u'} h = let e : u' ≡ u = ground arith in rw e (Changed-refl u)

  address_trans :
      (x y z : Option String) → (y ≡ x) ⊎ (y ≡ none) → (z ≡ y) ⊎ (z ≡ none) → (z ≡ x) ⊎ (z ≡ none)
  address_trans x y z (inl p) (inl q) = inl (q ∙ p)
  address_trans x y z (inr p) (inl q) = inr (q ∙ p)
  address_trans x y z h (inr q) = inr q

  name_trans :
      (i j : ℕ) (x y z : String)
      → j ≡ i
      → (y ≡ x) ⊎ IsAvailable i y
      → (z ≡ y) ⊎ IsAvailable j z
      → (z ≡ x) ⊎ IsAvailable i z
  name_trans i j x y z same (inl p) (inl q) = inl (q ∙ p)
  name_trans i j x y z same (inr p) (inl q) = inr (rw q p)
  name_trans i j x y z same h (inr q) = inr (rw same at q)

  Changed-trans : {x y z : DbUser Decimal} → Changed x y → Changed y z → Changed x z
  Changed-trans p q = record {
    same_fixed = q.same_fixed ∙ p.same_fixed;
    role_kept = λ h. q.role_kept h ∙ p.role_kept h;
    badges_kept = λ h. q.badges_kept h ∙ p.badges_kept h;
    address_kept = λ h. address_trans _ _ _ (p.address_kept h) (q.address_kept h);
    name_free = name_trans _ _ _ _ _ (ap (λ same. same.0) p.same_fixed) p.name_free q.name_free;
  }

  edit_username-Changed :
      (name : Option String) (u u' : DbUser Decimal) → edit_username c name u ≡ ok u' → Changed u u'
  unfolding edit_username
  edit_username-Changed none u u' h = unchanged h
  edit_username-Changed (some name) u u' h =
      let set : u' ≡ record u { username = name } = ground arith in
      let free : is_free c (get_user c.env.to_lowercase name c.users) ≡ true = ground arith in
      rw set (record {
        same_fixed = refl;
        role_kept = λ h. refl;
        badges_kept = λ h. refl;
        address_kept = λ h. inl refl;
        name_free = inr (free, ground arith);
      })

  edit_name-Changed :
      (name : Option (Option String)) (u : DbUser Decimal) → Changed u (edit_name c name u)
  edit_name-Changed none u = Changed-refl u
  edit_name-Changed (some name) u = other_columns refl refl refl refl refl

  edit_bio-Changed :
      (bio : Option (Option String)) (u : DbUser Decimal) → Changed u (edit_bio c bio u)
  edit_bio-Changed none u = Changed-refl u
  edit_bio-Changed (some bio) u = other_columns refl refl refl refl refl

  edit_role-Changed :
      (role : Option Role.Role) (u u' : DbUser Decimal) → edit_role c role u ≡ ok u' → Changed u u'
  unfolding edit_role
  edit_role-Changed none u u' h = unchanged h
  edit_role-Changed (some role) u u' h =
      let set : u' ≡ record u { role = Role.as_str role } = ground arith in
      let admin : Role.is_admin c.user.role ≡ true = ground arith in
      rw set (record {
        same_fixed = refl;
        role_kept = λ no_admin. absurd (ground arith);
        badges_kept = λ no_admin. refl;
        address_kept = λ no_scope. inl refl;
        name_free = inl refl;
      })

  edit_badges-Changed :
      (badges : Option ℕ) (u u' : DbUser Decimal) → edit_badges c badges u ≡ ok u' → Changed u u'
  unfolding edit_badges
  edit_badges-Changed none u u' h = unchanged h
  edit_badges-Changed (some badges) u u' h =
      let set : u' ≡ record u { badges = badges } = ground arith in
      let admin : Role.is_admin c.user.role ≡ true = ground arith in
      rw set (record {
        same_fixed = refl;
        role_kept = λ no_admin. refl;
        badges_kept = λ no_admin. absurd (ground arith);
        address_kept = λ no_scope. inl refl;
        name_free = inl refl;
      })

  edit_payout_data-Changed :
      (data' : Option (Option EditPayoutData)) (u u' : DbUser Decimal)
      → edit_payout_data c data' u ≡ ok u'
      → Changed u u'
  unfolding edit_payout_data
  edit_payout_data-Changed none u u' h = unchanged h
  edit_payout_data-Changed (some none) u u' h =
      let set : u'
          ≡ record u { payout_wallet = none; payout_wallet_type = none; payout_address = none } =
        ground arith in
      rw set (record {
        same_fixed = refl;
        role_kept = λ no_admin. refl;
        badges_kept = λ no_admin. refl;
        address_kept = λ no_scope. inr refl;
        name_free = inl refl;
      })
  edit_payout_data-Changed (some (some p)) u u' h =
      let set : u' ≡ record u {
        payout_wallet = some p.payout_wallet;
        payout_wallet_type = some p.payout_wallet_type;
        payout_address = some p.payout_address;
      } =
        ground arith in
      let scope : c.flags.contains c.scopes Scopes.payouts_write ≡ true = ground arith in
      rw set (record {
        same_fixed = refl;
        role_kept = λ no_admin. refl;
        badges_kept = λ no_admin. refl;
        address_kept = λ no_scope. absurd (ground arith);
        name_free = inl refl;
      })

  pub edit_row-Changed :
      (p : EditUser) (u u' : DbUser Decimal) → edit_row c p u ≡ ok u' → Changed u u'
  unfolding edit_row
  edit_row-Changed p u u' h =
      let (u1, d1, h1) = bind-ok (edit_username c p.username u) _ u' h in
      let (u2, d2, h2) =
        bind-ok (edit_role c p.role (edit_bio c p.bio (edit_name c p.name u1))) _ u' h1 in
      let (u3, d3, h3) = bind-ok (edit_badges c p.badges u2) _ u' h2 in
      Changed-trans (edit_username-Changed p.username u u1 d1) (
        Changed-trans (edit_name-Changed p.name u1) (
          Changed-trans (edit_bio-Changed p.bio (edit_name c p.name u1)) (
            Changed-trans (edit_role-Changed p.role _ u2 d2) (
              Changed-trans (edit_badges-Changed p.badges u2 u3 d3)
                (edit_payout_data-Changed p.payout_data u3 u' h3)))))
