-- ===== src/RealPty/Child.antt =====
-- real_pty.rs: what the spawned command is, and what the child hands out and reports.
use esesaetsch.Base.{
  ℕ, none, some, List, [], ◌∷◌, String, ◌≡◌, refl, Result, ok, err, arith, if◌then◌else◌, min,
  is_blank, false, ◌∙◌, ◌==◌,
}
use esesaetsch.Std.Map.{Map, get, insert, get-insert}
use esesaetsch.Pty.{SpawnSpec, TakesOnce, effective_command}
use esesaetsch.Target.{TargetOs, is_unix}
use esesaetsch.RealPty.{
  join_wait, wait_status, wait_outcome, PtySystem, real_child, convert_exit_status, command_for,
  shell_argv, set_all,
}
use esesaetsch.Session.Loop.{exit_code}

-- The child hands out each of its streams, and its wait handle, at most once.
pub real_child-TakesOnce :
    {Env Master Proc Reader Writer : Type 0} (os : TargetOs)
    (sys : PtySystem Env Master Proc Reader Writer)
    → TakesOnce (real_child os sys)
unfolding real_child
real_child-TakesOnce os sys = record {
  reader = λ s. refl;
  writer = λ s. refl;
  stderr = λ s. refl;
  wait = λ s. refl;
}

pub exit_code-convert_exit_status :
    (code : ℕ) → exit_code (ok (convert_exit_status code)) ≡ min code 0x7fffffff
unfolding exit_code convert_exit_status
exit_code-convert_exit_status code = ground arith

abbrev pub reported : Result String (Result String ℕ) → ℕ
reported (ok (ok code)) = min code 0x7fffffff
reported _ = 1

-- The exit code that the session reports to the client is that of the process, up to 2 ^ 31 - 1, and
-- 1 where waiting for the process failed or the task that waits was lost.
pub exit_code-wait_outcome :
    (wait : Result String (Result String ℕ)) → exit_code (wait_outcome wait) ≡ reported wait
unfolding exit_code join_wait wait_status
exit_code-wait_outcome (ok (ok code)) = exit_code-convert_exit_status code
exit_code-wait_outcome (ok (err e)) = refl
exit_code-wait_outcome (err e) = refl

-- A forced command that is not blank is what the system's shell runs, whatever the client asked for.
command_for-forced :
    (os : TargetOs) (base : Map String) (spec : SpawnSpec) (fc : String)
    → spec.grants.force_command ≡ some fc
    → is_blank fc ≡ false
    → (command_for os base spec).argv
      ≡ (if is_unix os then "/bin/sh" ∷ "-c" ∷ fc ∷ [] else "cmd.exe" ∷ "/C" ∷ fc ∷ [])
unfolding command_for effective_command shell_argv
command_for-forced os base spec fc h b = rw h (rw b refl)

get-set_all :
    (env : List (String × String)) (k : String) (envs : Map String)
    → get k env ≡ none
    → get k (set_all env envs) ≡ get k envs
unfolding get
get-set_all [] k envs h = refl
get-set_all ((j, v) ∷ env) k envs h =
    let f : (j == k) ≡ false = ground arith in
    get-set_all env k (insert j v envs) (ground arith) ∙ get-insert j k v envs ∙ rw f refl

-- The command has the terminal type of the request, unless the request's environment names another.
pub command_for-term :
    (os : TargetOs) (base : Map String) (spec : SpawnSpec)
    → get "TERM" spec.env ≡ none
    → get "TERM" (command_for os base spec).envs ≡ some spec.term
unfolding command_for
command_for-term os base spec h =
    get-set_all spec.env "TERM" _ h ∙ get-insert "TERM" "TERM" spec.term base
