-- ===== src/Users/Admins.antt =====
-- src/server/user-service.ts, lines 10 to 23: who stays an enabled super administrator, and whose
-- sessions end.
use wireguard_panel.Base.{
  ◌≡◌, ◌∙◌, subst, refl, Bool, true, false, not, ◌&&◌, ◌||◌, List, [], ◌∷◌, map, Option, none, some,
  ok, guard, >>=-eq-ok, ok_inj, ap, sym, any, All, arith, find, Bool-cases, inl, inr,
}
use wireguard_panel.Base.Text.{Text, text_eq}
use wireguard_panel.Access.{Role}
use wireguard_panel.Users.{
  own_account, own_role, last_super_admin, is_super_admin, same_role, as_role, new_hash, or_no_user,
  Account, Accounts, UpdateUserInput, has_user_id, is_enabled_super, is_other_super, on_account,
  changed_account, update_managed_user,
}

-- The identifier of a row names it alone.
abbrev pub IsKey : Text → List Account → Type 0
IsKey id users = All (λ a. has_user_id id a ≡ true → find (has_user_id id) users ≡ some a) users

-- A change keeps a row that has a property, if it spares the rows that have it.
any-on_account :
    (q : Account → Bool) (id : Text) (f : Account → Account) (users : List Account)
    → All (λ a. has_user_id id a ≡ true → q a ≡ true → q (f a) ≡ true) users
    → any q users ≡ true
    → any q (map (on_account id f) users) ≡ true
any-on_account q id f [] spares h = h
any-on_account q id f (a ∷ users) (spare, spares) h = elim (Bool-cases (has_user_id id a)) [
  | inl e ↦ elim (Bool-cases (q a)) [
    | inl qa ↦ rw e (rw (spare e qa) refl)
    | inr not_qa ↦ rw e (ground (arith, any-on_account q id f users spares (rw not_qa at h)))
  ]
  | inr e ↦ elim (Bool-cases (q a)) [
    | inl qa ↦ rw e (rw qa refl)
    | inr not_qa ↦ rw e (rw not_qa (any-on_account q id f users spares (rw not_qa at h)))
  ]
]

any-others :
    (id : Text) (f : Account → Account) (users : List Account)
    → any (is_other_super id) users ≡ true
    → any is_enabled_super (map (on_account id f) users) ≡ true
any-others id f [] h = h
any-others id f (a ∷ users) h = elim (Bool-cases (has_user_id id a)) [
  | inl e ↦ rw e (ground (arith, any-others id f users (rw e at h)))
  | inr e ↦ rw e (elim (Bool-cases (is_enabled_super a)) [
    | inl s ↦ rw s refl
    | inr s ↦ rw s (any-others id f users (ground (arith, h, e, s)))
  ])
]

-- The test on the target passed: another one stays, or the target is none or stays one.
spares_target :
    (target : Account) (role : Role) (enabled : Bool) (hash : Option Text) (others : Bool)
    → not (is_enabled_super target && (not enabled || not (is_super_admin role)) && not others)
      ≡ true
    → others ≡ false
    → is_enabled_super target ≡ true
    → is_enabled_super (changed_account role enabled hash target) ≡ true
spares_target target role enabled hash others passed none_other was =
    ground (arith, passed, none_other, was)

passed : {E : Type 0} (b : Bool) (e : E) {u : Unit {0}} → guard b e ≡ ok u → b ≡ true
passed true e h = refl
passed false e h = cc

found : (o : Option Account) {target : Account} → or_no_user o ≡ ok target → o ≡ some target
found none h = cc
found (some a) h = cc

some_inj : {a b : Account} → some a ≡ some b → a ≡ b
some_inj h = cc

spared_rows :
    (id : Text) (change : Account → Account) (target : Account) (o : Option Account)
    → o ≡ some target
    → (is_enabled_super target ≡ true → is_enabled_super (change target) ≡ true)
    → (users : List Account) → All (λ a. has_user_id id a ≡ true → o ≡ some a) users
    → All
        (λ a.
          has_user_id id a ≡ true → is_enabled_super a ≡ true → is_enabled_super (change a) ≡ true)
        users
spared_rows id change target o e spare [] keys = tt
spared_rows id change target o e spare (a ∷ users) (key, keys) = (
  λ has.
      let same : a ≡ target = some_inj (sym (key has) ∙ e) in
      subst (λ b. is_enabled_super b ≡ true → is_enabled_super (change b) ≡ true) (sym same) spare,
  spared_rows id change target o e spare users keys,
)

module _ (hash_password : Text → Text) (id : Text) (input : UpdateUserInput) (actor_id : Text) where
  -- A change of an account that is not refused, whoever makes it, under an identifier that names one
  -- row at most: if there was an enabled super administrator, there still is one.
  pub update_managed_user-KeepsAdmin :
      (db db' : Accounts)
      → IsKey id db.users
      → update_managed_user hash_password id input actor_id db ≡ ok db'
      → any is_enabled_super db.users ≡ true
      → any is_enabled_super db'.users ≡ true
  unfolding update_managed_user
  update_managed_user-KeepsAdmin db db' key h some_super =
      let role = as_role input.role in
      let hash = new_hash hash_password input.password in
      let change = changed_account role input.enabled hash in
      let (_, _, h1) =
        >>=-eq-ok (guard (not (text_eq id actor_id && not input.enabled)) own_account) _ h in
      let (target, is_target, h2) = >>=-eq-ok (or_no_user (find (has_user_id id) db.users)) _ h1 in
      let (_, _, h3) =
        >>=-eq-ok
          (guard (not (text_eq id actor_id && not (same_role role target.user.role))) own_role) _
          h2 in
      let (_, kept, h4) =
        >>=-eq-ok
          (guard
            (not (
              is_enabled_super target
              && (not input.enabled || not (is_super_admin role))
              && not (any (is_other_super id) db.users)))
            last_super_admin)
          _ h3 in
      let users : db'.users ≡ map (on_account id change) db.users =
        ap (λ (d : Accounts). d.users) (sym (ok_inj h4)) in
      rw users (elim (Bool-cases (any (is_other_super id) db.users)) [
        | inl others ↦ any-others id change db.users others
        | inr alone ↦
            any-on_account is_enabled_super id change db.users
              (spared_rows id change target (find (has_user_id id) db.users) (found _ is_target)
                (spares_target target role input.enabled hash _ (passed _ _ kept) alone) db.users
                key)
              some_super
      ])
