-- ===== src/Resume/Stable.antt =====
-- resume.py: the constructor of a checkpoint accepts the fields of what it made.
use meta_harness.Common.{
  ℕ, zero, suc, String, ◌≡◌, refl, Bool, true, false, not, ◌&&◌, Option, is_some, Bool-cases, inl,
  inr,
}
use meta_harness.Common.Outcome.{ok, bind-ok, refuse_if-eq-ok, ok-injective}
use meta_harness.Common.Text.Hex.{is_sha256, is_object_id}
use meta_harness.Json.{pos, negsuc, Value, null, str, bool, int, float, obj, arr, opt_str, opt_int}
use meta_harness.Machine.Phase.{RunPhase, implement_step, phase_eq, phase_in}
use meta_harness.Resume.Checkpoint.{
  CheckpointError, ResumeCheckpoint, iteration_field, step_field, digest_field, early,
  before_commit, make_checkpoint,
}

iteration_field_stable :
    (v : Value) {n : ℕ} → iteration_field v ≡ ok n → iteration_field (int (pos n)) ≡ ok n
unfolding iteration_field
iteration_field_stable (int (pos zero)) h = cc
iteration_field_stable (int (pos (suc m))) {n = n} h = rw (← ok-injective h) refl
iteration_field_stable (int (negsuc m)) h = cc
iteration_field_stable null h = cc
iteration_field_stable (str s) h = cc
iteration_field_stable (bool b) h = cc
iteration_field_stable (float b s) h = cc
iteration_field_stable (obj d) h = cc
iteration_field_stable (arr d) h = cc

step_field_stable :
    (b : Bool) (v : Value) {i : Option ℕ} → step_field b v ≡ ok i → step_field b (opt_int i) ≡ ok i
unfolding step_field
step_field_stable true (int (pos n)) h = rw (← ok-injective h) refl
step_field_stable true (int (negsuc n)) h = cc
step_field_stable true null h = cc
step_field_stable true (str s) h = cc
step_field_stable true (bool b) h = cc
step_field_stable true (float b s) h = cc
step_field_stable true (obj d) h = cc
step_field_stable true (arr d) h = cc
step_field_stable false null h = rw (← ok-injective h) refl
step_field_stable false v h = cc

digest_field_stable :
    (pattern : String → Bool) (e : CheckpointError) (v : Value) {o : Option String}
    → digest_field pattern e v ≡ ok o
    → digest_field pattern e (opt_str o) ≡ ok o
unfolding digest_field
digest_field_stable pattern e null h = rw (← ok-injective h) refl
digest_field_stable pattern e (str s) h = elim (Bool-cases (pattern s)) [
  | inl p ↦ rw (← ok-injective (rw p at h)) (rw p refl)
  | inr p ↦ cc (rw p at h)
]
digest_field_stable pattern e v h = cc

-- A checkpoint that was made is made again of its own fields.
pub make_checkpoint_stable :
    (p : RunPhase) (n i g h : Value) {c : ResumeCheckpoint}
    → make_checkpoint p n i g h ≡ ok c
    → (c.phase ≡ p)
      × (make_checkpoint c.phase
            (int (pos c.iteration))
            (opt_int c.step_index)
            (opt_str c.last_green_commit)
            (opt_str c.plan_sha256)
          ≡ ok c)
unfolding make_checkpoint
make_checkpoint_stable p n i g h made =
    let (n', p1, k1) = bind-ok (iteration_field n) _ made in
    let (i', p2, k2) = bind-ok (step_field (phase_eq p implement_step) i) _ k1 in
    let (g', p3, k3) = bind-ok (digest_field is_object_id _ g) _ k2 in
    let (h', p4, k4) = bind-ok (digest_field is_sha256 _ h) _ k3 in
    let (a, k5) = refuse_if-eq-ok (not (phase_in p early) && not (is_some h')) _ _ k4 in
    let (b, k6) = refuse_if-eq-ok (not (phase_in p before_commit) && not (is_some g')) _ _ k5 in
    rw (← ok-injective k6) (
      refl,
      rw
          (
            iteration_field_stable n p1,
            step_field_stable (phase_eq p implement_step) i p2,
            digest_field_stable is_object_id _ g p3,
            digest_field_stable is_sha256 _ h p4,
            a,
            b,
          )
          refl,
    )
