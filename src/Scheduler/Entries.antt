-- ===== src/Scheduler/Entries.antt =====
-- The conditionals of the scheduler's entries.
use popu_gate.Prelude.{
  ◌≡◌, refl, sym, Bool, true, false, not, ◌&&◌, ◌||◌, Str, str_eq, str_eq_iff, List, [], ◌∷◌,
  Option, none, some, if◌then◌else◌, arith,
}
use popu_gate.Config.Maps.{find}
use popu_gate.Scheduler.Tasks.{Task, task_of}
use popu_gate.Scheduler.Runtime.{Scheduler}

pub task_of-name :
    (n : Str) (ts : List Task) (t : Task) → task_of n ts ≡ some t → str_eq t.name n ≡ true
unfolding task_of
task_of-name n [] t h = cc
task_of-name n (u ∷ ts) t h = ground (arith, task_of-name n ts t)

-- The entry of a name behind a conditional.
pub if_result :
    (l : Str) (b : Bool) (x y : Scheduler × Bool) (r : Option Str)
    → (b ≡ true → find l x.0.entries ≡ r)
    → (b ≡ false → find l y.0.entries ≡ r)
    → find l (if b then x else y).0.entries ≡ r
if_result l true x y r h k = h refl
if_result l false x y r h k = k refl

-- The conditionals of the entries, over their tests.
module _ (fn nm acc on : Bool) (v : Str) (o o' : Option Str) where
  pub dropped :
      fn ≡ true
      → acc ≡ false
      → (if nm then none else o) ≡ (if fn && nm then (if acc then some v else none) else o)
  dropped f a = ground arith

  pub replaced :
      fn ≡ true
      → o' ≡ (if nm then none else o)
      → (if nm && acc then some v else o')
        ≡ (if fn && nm then (if acc then some v else none) else o)
  replaced f h = ground arith

  pub untouched : fn ≡ false → o ≡ (if fn && nm then (if acc then some v else none) else o)
  untouched f = ground arith

  pub switched_on :
      on ≡ true
      → (if fn && nm then o' else o)
        ≡ (if nm then (if on then (if fn then o' else o) else none) else o)
  switched_on e = ground arith

  pub switched_off :
      (x : Option Str)
      → on ≡ false
      → acc ≡ false
      → o' ≡ (if nm then none else o)
      → (if fn && nm then (if acc then some v else none) else o')
        ≡ (if nm then (if on then x else none) else o)
  switched_off x e a h = ground arith

-- The schedule of an override, over its fields.
abbrev pub pick : Str → Str → Str
pick schedule custom = if str_eq custom [] then schedule else custom

pub pick-default :
    (schedule custom default : Str)
    → schedule ≡ default
    → (str_eq custom [] || str_eq custom default) ≡ true
    → pick schedule custom ≡ schedule
pick-default schedule custom default e h = ground (arith, str_eq_iff custom default)

pub run_both :
    (on fn : Bool) (a same : Option Str)
    → (fn ≡ false → same ≡ none)
    → (if on then (if fn then a else same) else none) ≡ (if fn && on then a else none)
run_both true true a same h = refl
run_both true false a same h = h refl
run_both false true a same h = refl
run_both false false a same h = refl

pub on_and_enabled :
    (fn on off : Bool) (a : Option Str)
    → on ≡ true
    → off ≡ false
    → (if fn && on then a else none) ≡ (if fn && not off then a else none)
on_and_enabled fn on off a e f = ground arith

pub both_left : (a b : Bool) → (a && b) ≡ true → a ≡ true
both_left a b h = ground arith

pub both_right : (a b : Bool) → (a && b) ≡ true → b ≡ true
both_right a b h = ground arith

pub apply_if :
    {A B : Type 0} (f : A → B) (b : Bool) (x y : A)
    → f (if b then x else y) ≡ (if b then f x else f y)
apply_if f true x y = refl
apply_if f false x y = refl

pub same_if : (b : Bool) (y x : Option Str) → (b ≡ true → y ≡ x) → x ≡ (if b then y else x)
same_if true y x h = sym (h refl)
same_if false y x h = refl

pub each_branch :
    (b : Bool) (x x' y y' : Option Str)
    → (b ≡ true → x ≡ x')
    → y ≡ y'
    → (if b then x else y) ≡ (if b then x' else y')
each_branch true x x' y y' h k = h refl
each_branch false x x' y y' h k = k
