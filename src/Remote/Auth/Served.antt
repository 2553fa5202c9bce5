-- ===== src/Remote/Auth/Served.antt =====
-- What a service does to the account manager, as calls of the manager's methods.
use webadbcontrol.Base.{ℕ, ◌≡◌, refl, ap, sym, ◌∙◌, String, Bool, List, [], ◌∷◌, ◌++◌, inl, inr}
use webadbcontrol.Error.{Result-cases}
use webadbcontrol.Remote.Accounts.{Crates}
use webadbcontrol.Remote.Storage.{Manager}
use webadbcontrol.Remote.Auth.{login, check_login}
use webadbcontrol.Remote.Auth.Log.{Call, step, run}
use webadbcontrol.Remote.Auth.Ordinary.{IsOrdinary, AllOrdinary}

module _ (admin_token : String → Bool) (crates : Crates) where
  -- The manager `n` is what some calls make of `m`; the administrator only gets its own tokens.
  unfoldable pub Served : Manager → Manager → Type 0
  Served m n = (calls : List Call) × AllOrdinary admin_token calls × (n ≡ run crates m calls)

  pub idle : (m : Manager) → Served m m
  unfolding Served run
  idle m = ([], tt, refl)

  pub one :
      (m : Manager) (call : Call) → IsOrdinary admin_token call → Served m (step crates m call)
  unfolding Served run
  one m call o = (call ∷ [], (o, tt), refl)

  pub first :
      (m n : Manager) (call : Call)
      → IsOrdinary admin_token call
      → Served (step crates m call) n
      → Served m n
  unfolding Served run
  first m n call o (calls, os, e) = (call ∷ calls, (o, os), e)

  run-append :
      (m : Manager) (cs ds : List Call) → run crates m (cs ++ ds) ≡ run crates (run crates m cs) ds
  unfolding run
  run-append m [] ds = refl
  run-append m (c ∷ cs) ds = run-append (step crates m c) cs ds

  AllOrdinary-append :
      (cs ds : List Call)
      → AllOrdinary admin_token cs
      → AllOrdinary admin_token ds
      → AllOrdinary admin_token (cs ++ ds)
  AllOrdinary-append [] ds o os = os
  AllOrdinary-append (c ∷ cs) ds (o, rest) os = (o, AllOrdinary-append cs ds rest os)

  pub trans : (m n k : Manager) → Served m n → Served n k → Served m k
  unfolding Served
  trans m n k (cs, os, e) (ds, ps, f) = (
    cs ++ ds,
    AllOrdinary-append cs ds os ps,
    f ∙ ap (λ x. run crates x ds) e ∙ sym (run-append m cs ds),
  )

-- A login only opens a session.
pub login-database :
    (crates : Crates) (username password token : String) (now : ℕ) (m : Manager)
    → (login crates username password token now m).1.database ≡ m.database
unfolding login
login-database crates username password token now m =
    elim (Result-cases (check_login crates username password m)) [
      | inr (e, bad) ↦ rw (bad, login) refl
      | inl (a, good) ↦ rw (good, login) refl
    ]
