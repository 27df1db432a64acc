-- ===== src/Handlers/Requests.antt =====
-- Steps that the handlers share.
use myccmonitor.Prelude.{Option, none, some}
use myccmonitor.Error.{Error}
use myccmonitor.Task.Invariant.{Keeps, Keeps-pure, Keeps-throw}
use myccmonitor.World.Laws.{OnDb}
use myccmonitor.Store.Tables.{Db}
use myccmonitor.Handlers.Rules.{or_fail}

pub Keeps-or_fail :
    {P : Db → Type 0} {A : Type 0} (e : Error) (o : Option A) → Keeps (OnDb P) (or_fail e o)
unfolding or_fail
Keeps-or_fail e none = Keeps-throw e
Keeps-or_fail e (some a) = Keeps-pure a
