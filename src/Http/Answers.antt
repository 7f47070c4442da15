-- ===== src/Http/Answers.antt =====
-- The handlers that always answer: no step panics on a nil pointer, and the last one responds.
use oximetric.Base.{Bool, true, false, Option, none, some}
use oximetric.Storage.Store.{Result, ok, err}
use oximetric.Http.{Response, Step, H, ◌>>=◌, pure, respond, require, or_respond, deref, try}

-- A step that does not panic.
pub data Proceeds {ℓ} {A : Type ℓ} : Step A → Type ℓ where
  went : (a : A) → Proceeds (Step.go a)
  replied : (r : Response) → Proceeds (Step.reply r)

-- A step that is a response.
pub data IsReply {ℓ} {A : Type ℓ} : Step A → Type ℓ where
  replied : (r : Response) → IsReply (Step.reply r)

-- Code that goes on or responds, from any state.
pub record Runs {ℓ} {S : Type 0} {A : Type ℓ} (m : H S A) : Type ℓ where
  pub at : (s : S) → Proceeds (m s).1

-- Code that responds, from any state.
pub record Answers {ℓ} {S : Type 0} {A : Type ℓ} (m : H S A) : Type ℓ where
  pub at : (s : S) → IsReply (m s).1

module _ {S : Type 0} where
  pub Runs-require : (b : Bool) (r : Response) → Runs (require {S = S} b r)
  Runs-require true r = record { at = λ s. Proceeds.went tt }
  Runs-require false r = record { at = λ s. Proceeds.replied r }

  module _ {ℓ} {A : Type ℓ} where
    pub Runs-pure : (a : A) → Runs (pure {S = S} a)
    Runs-pure a = record { at = λ s. Proceeds.went a }

    pub Runs-or_respond : (x : Option A) (r : Response) → Runs (or_respond {S = S} x r)
    Runs-or_respond none r = record { at = λ s. Proceeds.replied r }
    Runs-or_respond (some a) r = record { at = λ s. Proceeds.went a }

    pub Runs-deref : (a : A) → Runs (deref {S = S} (some a))
    Runs-deref a = record { at = λ s. Proceeds.went a }

    pub Runs-respond : (r : Response) → Runs (respond {S = S} {A = A} r)
    Runs-respond r = record { at = λ s. Proceeds.replied r }

    pub Answers-respond : (r : Response) → Answers (respond {S = S} {A = A} r)
    Answers-respond r = record { at = λ s. IsReply.replied r }

    tried : (r : Response) (s : S) (done : S × Result A) → Proceeds (try (λ _. done) r s).1
    tried r s (s', ok a) = Proceeds.went a
    tried r s (s', err e) = Proceeds.replied r

    pub Runs-try : (call : S → S × Result A) (r : Response) → Runs (try call r)
    Runs-try call r = record { at = λ s. tried r s (call s) }

  module _ {ℓ κ} {A : Type ℓ} {B : Type κ} where
    bound :
        (k : A → H S B) (s : S) (done : S × Step A)
        → Proceeds done.1
        → ((a : A) → Runs (k a))
        → Proceeds (((λ _. done) >>= k) s).1
    bound k s (s', Step.go a) p g = (g a).at s'
    bound k s (s', Step.reply r) p g = Proceeds.replied r
    bound k s (s', Step.panic) p g = elim p [ ]

    pub Runs-bind : (m : H S A) (k : A → H S B) → Runs m → ((a : A) → Runs (k a)) → Runs (m >>= k)
    Runs-bind m k h g = record { at = λ s. bound k s (m s) (h.at s) g }

    answered :
        (k : A → H S B) (s : S) (done : S × Step A)
        → Proceeds done.1
        → ((a : A) → Answers (k a))
        → IsReply (((λ _. done) >>= k) s).1
    answered k s (s', Step.go a) p g = (g a).at s'
    answered k s (s', Step.reply r) p g = IsReply.replied r
    answered k s (s', Step.panic) p g = elim p [ ]

    pub Answers-bind :
        (m : H S A) (k : A → H S B) → Runs m → ((a : A) → Answers (k a)) → Answers (m >>= k)
    Answers-bind m k h g = record { at = λ s. answered k s (m s) (h.at s) g }

pub ruleset answer_rules = (
  Answers-respond, Answers-bind, Runs-pure, Runs-require, Runs-or_respond, Runs-deref, Runs-try,
  Runs-respond, Runs-bind,
)
