-- ===== src/Resume/RoundTrip.antt =====
-- resume.py: a checkpoint that was written is the one that is read, and `rephase_checkpoint` moves
-- nothing but its operation.

use meta_harness.Common.{
  ℕ, zero, suc, String, ◌≡◌, refl, sym, ap, ◌∙◌, Bool, not, ◌&&◌, Option, none, some, if◌then◌else◌,
  is_some, Bool-cases, inl, inr,
}
use meta_harness.Common.Outcome.{ok, bind-ok, refuse_if-eq-ok, ok-injective, Outcome-cases}
use meta_harness.Common.Text.Hex.{is_sha256, is_object_id}
use meta_harness.Json.{pos, Value, null, int, obj, Fields, get, has_key, opt_str, opt_int}
use meta_harness.Machine.Phase.{
  RunPhase, implement_step, context, planner, plan_approval, worktree_setup, deterministic_gate,
  audit, candidate_ready, candidate_push, publish, phase_value, phase_eq, phase_in, phase_of_text,
}
use meta_harness.Machine.Graph.{phase_eq→≡}
use meta_harness.Checkpoint.{stamp_from_payload, read_checkpoint_file, current_schema}
use meta_harness.Store.Disk.{Disk}
use meta_harness.Resume.Checkpoint.{
  CheckpointError, ResumeCheckpoint, iteration_field, step_field, digest_field, early,
  before_commit, make_checkpoint, checkpoint_payload, is_field, only_fields, exact_fields,
  other_version, parse_checkpoint, parse_file, read_checkpoint_record, write_checkpoint, moved,
  rephase, rephase_checkpoint,
}
use meta_harness.Resume.Stable.{make_checkpoint_stable}

parse-fields :
    (p : RunPhase) (n : ℕ) (i : Option ℕ) (g h : Option String) (sha : String)
    → parse_checkpoint
        (obj (
          checkpoint_payload (record {
            phase = p;
            iteration = n;
            step_index = i;
            last_green_commit = g;
            plan_sha256 = h;
          })))
        sha
      ≡ make_checkpoint p (int (pos n)) (opt_int i) (opt_str g) (opt_str h)
unfolding parse_checkpoint checkpoint_payload stamp_from_payload other_version exact_fields
    only_fields is_field get has_key current_schema phase_of_text phase_value
parse-fields context n i g h sha = refl
parse-fields planner n i g h sha = refl
parse-fields plan_approval n i g h sha = refl
parse-fields worktree_setup n i g h sha = refl
parse-fields implement_step n i g h sha = refl
parse-fields deterministic_gate n i g h sha = refl
parse-fields audit n i g h sha = refl
parse-fields candidate_ready n i g h sha = refl
parse-fields candidate_push n i g h sha = refl
parse-fields publish n i g h sha = refl

-- Every checkpoint that the constructor accepts is read back from its payload.
pub parse-make_checkpoint :
    (p : RunPhase) (n i g h : Value) (sha : String) {c : ResumeCheckpoint}
    → make_checkpoint p n i g h ≡ ok c
    → parse_checkpoint (obj (checkpoint_payload c)) sha ≡ ok c
parse-make_checkpoint p n i g h sha {c} made =
    parse-fields c.phase c.iteration c.step_index c.last_green_commit c.plan_sha256 sha
    ∙ (make_checkpoint_stable p n i g h made).1

iteration_field-same : (n : ℕ) {m : ℕ} → iteration_field (int (pos n)) ≡ ok m → m ≡ n
unfolding iteration_field
iteration_field-same zero h = cc
iteration_field-same (suc n) h = sym (ok-injective h)

digest_field-same :
    (pattern : String → Bool) (e : CheckpointError) (o : Option String) {p : Option String}
    → digest_field pattern e (opt_str o) ≡ ok p
    → p ≡ o
unfolding digest_field
digest_field-same pattern e none h = sym (ok-injective h)
digest_field-same pattern e (some s) h = elim (Bool-cases (pattern s)) [
  | inl b ↦ sym (ok-injective (rw b at h))
  | inr b ↦ cc (rw b at h)
]

-- What the constructor keeps of its arguments.
moved-kept :
    (digest : Fields → String) (p : RunPhase) (c : ResumeCheckpoint) {d : ResumeCheckpoint}
    → moved digest p c ≡ ok d
    → (d.phase ≡ p)
      × (d.iteration ≡ c.iteration)
      × (d.last_green_commit ≡ c.last_green_commit)
      × (d.plan_sha256 ≡ c.plan_sha256)
unfolding moved make_checkpoint iteration_field digest_field
moved-kept digest p c h =
    let (n, p1, k1) = bind-ok (iteration_field (int (pos c.iteration))) _ h in
    let (i, p2, k2) =
      bind-ok
        (step_field (phase_eq p implement_step)
          (if phase_eq p implement_step then opt_int c.step_index else null))
        _ k1 in
    let (g, p3, k3) = bind-ok (digest_field is_object_id _ (opt_str c.last_green_commit)) _ k2 in
    let (s, p4, k4) = bind-ok (digest_field is_sha256 _ (opt_str c.plan_sha256)) _ k3 in
    let (a, k5) = refuse_if-eq-ok (not (phase_in p early) && not (is_some s)) _ _ k4 in
    let (b, k6) = refuse_if-eq-ok (not (phase_in p before_commit) && not (is_some g)) _ _ k5 in
    rw (← ok-injective k6) (
      refl,
      iteration_field-same c.iteration p1,
      digest_field-same is_object_id _ c.last_green_commit p3,
      digest_field-same is_sha256 _ c.plan_sha256 p4,
    )

-- What was written is read, whatever the digest of the file.
read-write_checkpoint :
    (digest : Fields → String) (p : RunPhase) (n i g h : Value) (disk : Disk) {c : ResumeCheckpoint}
    → make_checkpoint p n i g h ≡ ok c
    → read_checkpoint_record (write_checkpoint digest c disk).checkpoint ≡ ok (some c)
unfolding read_checkpoint_record read_checkpoint_file parse_file write_checkpoint
read-write_checkpoint digest p n i g h disk {c} made =
    rw (parse-make_checkpoint p n i g h (digest (checkpoint_payload c)) made) refl

read_moved :
    (digest : Fields → String) (p : RunPhase) (c d : ResumeCheckpoint) (disk : Disk)
    → moved digest p c ≡ ok d
    → read_checkpoint_record (write_checkpoint digest d disk).checkpoint ≡ ok (some d)
unfolding moved
read_moved digest p c d disk made =
    read-write_checkpoint digest p (int (pos c.iteration))
      (if phase_eq p implement_step then opt_int c.step_index else null)
      (opt_str c.last_green_commit) (opt_str c.plan_sha256) disk made

module _ (digest : Fields → String) (p : RunPhase) (disk : Disk) where
  -- A run that has a checkpoint: when `rephase_checkpoint` returns, the checkpoint that is read next
  -- names the phase, and its iteration, commit and plan are the ones before.
  pub rephase_checkpoint-moves :
      (c : ResumeCheckpoint) {disk' : Disk}
      → read_checkpoint_record disk.checkpoint ≡ ok (some c)
      → rephase_checkpoint digest p disk ≡ (ok tt, disk')
      → (d : ResumeCheckpoint) × (read_checkpoint_record disk'.checkpoint ≡ ok (some d))
        × (d.phase ≡ p)
        × (d.iteration ≡ c.iteration)
        × (d.last_green_commit ≡ c.last_green_commit)
        × (d.plan_sha256 ≡ c.plan_sha256)
  unfolding rephase_checkpoint rephase
  rephase_checkpoint-moves c {disk'} read h = elim (Bool-cases (phase_eq c.phase p)) [
    | inl same ↦
        let k = rw (read, same) at h in
        (
          c,
          ap (λ x. read_checkpoint_record x.1.checkpoint) (sym k) ∙ read,
          phase_eq→≡ c.phase p same,
          refl,
          refl,
          refl,
        )
    | inr other ↦ elim (Outcome-cases (moved digest p c)) [
      | inr (e, bad) ↦ cc (rw (read, other, bad) at h)
      | inl (d, made) ↦
          let k = rw (read, other, made) at h in
          let (phase, n, g, s) = moved-kept digest p c made in
          (
            d,
            ap (λ x. read_checkpoint_record x.1.checkpoint) (sym k)
                ∙ read_moved digest p c d disk made,
            phase,
            n,
            g,
            s,
          )
    ]
  ]
