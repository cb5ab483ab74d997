-- ===== src/Shell/Visits.antt =====
-- The routes lead to a screen after two moves at most.
use procovar_notify.Prelude.{ℕ, suc, ◌≡◌, refl, Bool, true, false, some}
use procovar_notify.Shell.{
  Page, applications, Address, login, elsewhere, at_page, Screen, blank, login_page, shows, Auth,
  protected, app, visit,
}

-- Where an address ends for an administrator.
abbrev pub landing : Address → Page
landing login = applications
landing elsewhere = applications
landing (at_page page) = page

-- The screen that a session is to see at an address.
abbrev pub settled : Bool → Bool → Address → Screen
settled true admin address = blank
settled false true address = shows (landing address)
settled false false address = login_page

cases :
    (n : ℕ) (checking admin : Bool) (address : Address)
    → visit (suc (suc (suc n))) (record { admin = admin; checking = checking }) address
      ≡ some (settled checking admin address)
unfolding visit app protected
cases n true admin address = refl
cases n false true login = refl
cases n false true elsewhere = refl
cases n false true (at_page page) = refl
cases n false false login = refl
cases n false false elsewhere = refl
cases n false false (at_page page) = refl

-- From every address the moves end after two at most, whatever the session is: on a blank screen
-- while the session is checked, on the login for nobody, and for an administrator on the page of
-- the address, or on the applications if it has none.
pub visit-settled :
    (n : ℕ) (auth : Auth) (address : Address)
    → visit (suc (suc (suc n))) auth address ≡ some (settled auth.checking auth.admin address)
visit-settled n auth address = cases n auth.checking auth.admin address
