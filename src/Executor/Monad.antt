-- ===== src/Executor/Monad.antt =====
-- Actions of app/orchestration/executor.py: the state stays written where an exception is raised.
use agentic_google_workspace.Prelude.{ok, err}
use agentic_google_workspace.Contracts.{Checked}
use agentic_google_workspace.Database.{Rows}
use agentic_google_workspace.Executor.{Action}

unfoldable pub pure : {A : Type 0} → A → Action A
pure a w = (ok a, w)

unfoldable pub lift : {A : Type 0} → Checked A → Action A
lift m w = (m, w)

-- A change of the rows that the transaction has written.
unfoldable pub write : (Rows → Rows) → Action (Unit {0})
write f w = (ok tt, record w { session = record w.session { current = f w.session.current } })

abbrev pub continue : {A B : Type 0} → Checked A → (A → Action B) → Action B
continue (ok a) f w = f a w
continue (err e) f w = (err e, w)

infixl 5 ◌>>=◌ ◌>>◌
-- To open this is to open the actions above too.
unfoldable pub ◌>>=◌ : {A B : Type 0} → Action A → (A → Action B) → Action B
unfolding pure lift write
◌>>=◌ m f w = let (r, v) = m w in continue r f v

abbrev pub ◌>>◌ : {B : Type 0} → Action (Unit {0}) → Action B → Action B
m >> k = m >>= λ _. k
