-- ===== src/Native/Gvl.antt =====
-- Work without Ruby's lock (`call_without_gvl` and `execute_with_gvl` of
-- ext/rustly_core/src/ruby_helpers.rs), with the flag `SKIP_GVL` of the thread as the state.
use rustly_core.Base.{ℕ, zero, suc, String, ◌≡◌, refl, Bool, true, false, Option, none, some}
use rustly_core.Native.Errors.{ErrorSet}

pub data Exception : Type 0 where
  argument_error : String → Exception
  validation_error : ErrorSet → Exception
  -- An exception of the C API.
  ruby_error : Exception

-- A call ends with a value, is left by an exception, or does neither, as it ends the process by a
-- panic or does not end.
pub data Ended {ℓ} (A : Type ℓ) : Type ℓ where
  ended : A → Bool → Ended A
  raised : Exception → Bool → Ended A
  stuck : Ended A

abbrev pub T {ℓ} : Type ℓ → Type ℓ
T A = Bool → Ended A

abbrev pub pure {ℓ} : {A : Type ℓ} → A → T A
pure a skip = ended a skip

abbrev pub raise {ℓ} : {A : Type ℓ} → Exception → T A
raise e skip = raised e skip

abbrev pub continue {ℓ κ} : {A : Type ℓ} {B : Type κ} → (A → T B) → Ended A → Ended B
continue f (ended a skip) = f a skip
continue f (raised e skip) = raised e skip
continue f stuck = stuck

infixl 5 ◌>>=◌
unfoldable pub ◌>>=◌ {ℓ κ} : {A : Type ℓ} {B : Type κ} → T A → (A → T B) → T B
◌>>=◌ m f skip = continue f (m skip)

-- `WithoutGvlContext`
pub record WithoutGvlContext {ℓ} (A : Type ℓ) : Type ℓ where
  pub func : Option (T A)
  pub result : Option A

abbrev executed {ℓ} : {A : Type ℓ} → A → T (WithoutGvlContext A)
executed a skip = ended (record { func = none; result = some a }) skip

abbrev execute {ℓ} : {A : Type ℓ} → Option (T A) → WithoutGvlContext A → T (WithoutGvlContext A)
execute none ctx = pure ctx
execute (some f) ctx = λ skip. continue executed (f skip)

-- `executor`, which takes the function out of the context.
unfoldable pub executor {ℓ} : {A : Type ℓ} → WithoutGvlContext A → T (WithoutGvlContext A)
executor ctx = execute ctx.func ctx

-- `rb_thread_call_without_gvl`: `none`, it raises an exception for an interrupt before it runs the
-- function; `some n`, it runs the function n times.
unfoldable pub run_times {ℓ} : {A : Type ℓ} → ℕ → WithoutGvlContext A → T (WithoutGvlContext A)
unfolding executor ◌>>=◌
run_times zero ctx = pure ctx
run_times (suc n) ctx = executor ctx >>= run_times n

-- `ctx.result.expect(…)`
abbrev pub expect_result {ℓ} : {A : Type ℓ} → Option A → T A
expect_result none skip = stuck
expect_result (some a) skip = ended a skip

abbrev result_of {ℓ} : {A : Type ℓ} → WithoutGvlContext A → T A
result_of ctx = expect_result ctx.result

unfoldable pub release_gvl {ℓ} : {A : Type ℓ} → Option ℕ → T A → T A
unfolding run_times ◌>>=◌
release_gvl none f = raise Exception.ruby_error
release_gvl (some n) f = run_times n (record { func = some f; result = none }) >>= result_of

unfoldable pub call_without_gvl {ℓ} : {A : Type ℓ} → Option ℕ → T A → T A
unfolding release_gvl
call_without_gvl runs f true = f true
call_without_gvl runs f false = release_gvl runs f false

-- `flag.set(previous)`, which an exception jumps over.
abbrev pub restore {ℓ} : {A : Type ℓ} → Bool → Ended A → Ended A
restore previous (ended a skip) = ended a previous
restore previous (raised e skip) = raised e skip
restore previous stuck = stuck

unfoldable pub execute_with_gvl {ℓ} : {A : Type ℓ} → T A → T A
execute_with_gvl f previous = restore previous (f true)

-- `with_gvl_lock`, an older name.
abbrev pub with_gvl_lock {ℓ} : {A : Type ℓ} → T A → T A
with_gvl_lock f = execute_with_gvl f

module _ {ℓ} {A : Type ℓ} where
  run_times-taken :
      (n : ℕ) (a : A) (skip : Bool)
      → run_times n (record { func = none; result = some a }) skip
        ≡ ended (record { func = none; result = some a }) skip
  unfolding run_times executor ◌>>=◌
  run_times-taken zero a skip = refl
  run_times-taken (suc n) a skip = run_times-taken n a skip

  executed_lem :
      (n : ℕ) (r : Ended A) → continue result_of (continue (run_times n) (continue executed r)) ≡ r
  executed_lem n (ended a skip) = rw (run_times-taken n a skip)
  executed_lem n (raised e skip) = refl
  executed_lem n stuck = refl

  -- If `rb_thread_call_without_gvl` runs the function at least once, then the work is done exactly
  -- once, with or without the lock: its value, its exception and the flag are those of one run.
  pub call_without_gvl-once :
      (n : ℕ) (f : T A) (skip : Bool) → call_without_gvl (some (suc n)) f skip ≡ f skip
  unfolding call_without_gvl release_gvl run_times executor ◌>>=◌
  call_without_gvl-once n f true = refl
  call_without_gvl-once n f false = executed_lem n (f false)

  -- Inside `execute_with_gvl` the lock is never released, whatever `rb_thread_call_without_gvl` would
  -- do; the work is done once with the flag set, and where it ends, the flag is as it was before.
  pub execute_with_gvl-nested :
      (runs : Option ℕ) (f : T A) (skip : Bool)
      → execute_with_gvl (call_without_gvl runs f) skip ≡ restore skip (f true)
  unfolding execute_with_gvl call_without_gvl
  execute_with_gvl-nested runs f skip = refl
