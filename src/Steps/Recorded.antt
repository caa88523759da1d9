-- ===== src/Steps/Recorded.antt =====
-- orchestration/step_execution.py: the result of `_finalize_accepted_step`, once and twice.
use meta_harness.Common.{
  String, ◌≡◌, refl, sym, ap, ◌∙◌, Bool, true, false, none, ◌==◌, if◌then◌else◌, Bool-cases, inl,
  inr,
}
use meta_harness.Common.Outcome.{Outcome, ok, raised, map_raised, ok-injective, map_raised-eq-ok}
use meta_harness.Common.Effect.{Effect, continue-ok, continue-reading, giving-ok}
use meta_harness.Json.{
  Value, str, obj, arr, Fields, end, field, Items, nil, cons, get, has_key, opt_str,
}
use meta_harness.Json.Laws.{IsDict}
use meta_harness.Store.Disk.{Disk, StoreError, load}
use meta_harness.Store.Writes.{update_metadata}
use meta_harness.Store.Fields.{update_metadata-loads}
use meta_harness.Steps.Merged.{others_idem, merged_idem, chain_read_back, chain_unread}
use meta_harness.Steps.Finalize.{
  read_json_artifact, RunDir, AcceptError, not_stored, Committed, listed, accepted_chain_records,
  others, with_last, merged, step_payload, acceptance_payload, accepted_fields, on_disk, write_step,
  write_chain, write_acceptance, finalize_accepted_step,
}

-- The entries of a committed step are the last ones, and no other entry is of its commit.
abbrev pub IsOnce : Committed → Items → Type 0
IsOnce c vs =
    (before : Items) × (vs ≡ with_last before (obj c.row)) × (others c.commit_sha before ≡ before)

merged-IsOnce : (c : Committed) (vs : Items) → IsOnce c (merged c.commit_sha c.row vs)
unfolding merged
merged-IsOnce c vs = (others c.commit_sha vs, refl, others_idem c.commit_sha vs)

-- What a run records of a step: its two lists and its chain, and the commit as the expected one.
pub record IsRecorded (c : Committed) (r : RunDir) : Type 0 where
  pub state : Fields
  pub loaded : load r.disk.state_file ≡ ok state
  pub steps : Items
  pub commits : Items
  pub chain : Items
  pub steps_read : get state "accepted_steps" ≡ arr steps
  pub commits_read : get state "accepted_commits" ≡ arr commits
  pub chain_read : r.accepted_chain ≡ obj (field "commits" (arr chain) end)
  pub steps_once : IsOnce c steps
  pub commits_once : IsOnce c commits
  pub chain_once : IsOnce c chain
  pub head : get state "expected_head_sha" ≡ str c.commit_sha
  pub parent : get state "expected_parent_sha" ≡ str c.parent_sha
  pub tree : get state "expected_tree_sha" ≡ str c.tree_after
  pub next : get state "next_step_id" ≡ opt_str c.next_step

accepted_fields-IsDict :
    (c : Committed) (steps commits : Items) → IsDict (accepted_fields c steps commits)
unfolding accepted_fields has_key
accepted_fields-IsDict c steps commits = (refl, (refl, (refl, (refl, (refl, (refl, tt))))))

-- The lists that are written, made of those that were there.
record IsMerged (fits : Value → Bool) (c : Committed) (r r' : RunDir) : Type 0 where
  state : Fields
  state' : Fields
  loaded : load r.disk.state_file ≡ ok state
  loaded' : load r'.disk.state_file ≡ ok state'
  steps : Items
  commits : Items
  steps_listed : listed (get state "accepted_steps") ≡ ok steps
  commits_listed : listed (get state "accepted_commits") ≡ ok commits
  steps_read : get state' "accepted_steps" ≡ arr (merged c.commit_sha c.row steps)
  commits_read : get state' "accepted_commits" ≡ arr (merged c.commit_sha c.row commits)
  chain_read :
      r'.accepted_chain
      ≡ obj (
          field "commits"
            (arr (merged c.commit_sha c.row (accepted_chain_records fits r.accepted_chain)))
            end)
  head : get state' "expected_head_sha" ≡ str c.commit_sha
  parent : get state' "expected_parent_sha" ≡ str c.parent_sha
  tree : get state' "expected_tree_sha" ≡ str c.tree_after
  next : get state' "next_step_id" ≡ opt_str c.next_step

lifted-ok :
    {A : Type 0} (p : Outcome StoreError A × Disk) (r : RunDir) {a : A} {r' : RunDir}
    → ◌≡◌ {A = Outcome AcceptError A × RunDir}
        (map_raised not_stored p.0, record r { disk = p.1 })
        (ok a, r')
    → (p ≡ (ok a, r'.disk)) × (r'.accepted_chain ≡ r.accepted_chain)
lifted-ok (ok b, d) r h = (cc, ap (λ x. x.1.accepted_chain) (sym h))
lifted-ok (raised e, d) r h = cc

pub on_disk-ok :
    {A : Type 0} (m : Effect StoreError Disk A) (r : RunDir) {a : A} {r' : RunDir}
    → on_disk m r ≡ (ok a, r')
    → (m r.disk ≡ (ok a, r'.disk)) × (r'.accepted_chain ≡ r.accepted_chain)
unfolding on_disk
on_disk-ok m r h = lifted-ok (m r.disk) r h

read_fields :
    (c : Committed) (steps commits : Items) (st : Fields)
    → ((k : String)
        → has_key (accepted_fields c steps commits) k ≡ true
        → "updated_at" == k ≡ false
        → get st k ≡ get (accepted_fields c steps commits) k)
    → (get st "accepted_steps" ≡ arr steps)
      × (get st "accepted_commits" ≡ arr commits)
      × (get st "expected_head_sha" ≡ str c.commit_sha)
      × (get st "expected_parent_sha" ≡ str c.parent_sha)
      × (get st "expected_tree_sha" ≡ str c.tree_after)
      × (get st "next_step_id" ≡ opt_str c.next_step)
unfolding accepted_fields get has_key
read_fields c steps commits st reads = (
  reads "accepted_steps" refl refl,
  reads "accepted_commits" refl refl,
  reads "expected_head_sha" refl refl,
  reads "expected_parent_sha" refl refl,
  reads "expected_tree_sha" refl refl,
  reads "next_step_id" refl refl,
)

finalize-IsMerged :
    (fits : Value → Bool) (now : String) (c : Committed) (r r' : RunDir)
    → finalize_accepted_step fits now c r ≡ (ok tt, r')
    → IsMerged fits c r r'
unfolding finalize_accepted_step write_step write_chain write_acceptance
finalize-IsMerged fits now c r r' h =
    let noted = record r {
      step_record = obj (step_payload c (read_json_artifact fits r.step_record));
    } in
    let (state, q1, k1) =
      continue-reading (map_raised not_stored (load r.disk.state_file)) noted _ h in
    let chain = merged c.commit_sha c.row (accepted_chain_records fits r.accepted_chain) in
    let r2 = record noted {
      accepted_chain = obj (field "commits" (arr chain) end);
      acceptance = obj (acceptance_payload c);
    } in
    let (steps, q3, k3) = continue-reading (listed (get state "accepted_steps")) r2 _ k1 in
    let (commits, q4, k4) = continue-reading (listed (get state "accepted_commits")) r2 _ k3 in
    let steps' = merged c.commit_sha c.row steps in
    let commits' = merged c.commit_sha c.row commits in
    let fields = accepted_fields c steps' commits' in
    let (w, r5, p5, k5) = continue-ok (on_disk (update_metadata now none fields) r2) _ k4 in
    let (wrote, kept) = on_disk-ok (update_metadata now none fields) r2 p5 in
    let (st, there, reads) =
      update_metadata-loads now fields r2.disk r5.disk w (accepted_fields-IsDict c steps' commits')
        wrote in
    let (a, b, head, parent, tree, next) = read_fields c steps' commits' st reads in
    let last : r5 ≡ r' = (giving-ok k5).1 in
    record {
      state = state;
      state' = st;
      loaded = map_raised-eq-ok not_stored _ q1;
      loaded' = ap (λ x. load x.disk.state_file) (sym last) ∙ there;
      steps = steps;
      commits = commits;
      steps_listed = q3;
      commits_listed = q4;
      steps_read = a;
      commits_read = b;
      chain_read = ap (λ x. x.accepted_chain) (sym last) ∙ kept;
      head = head;
      parent = parent;
      tree = tree;
      next = next;
    }

-- When a committed step was recorded, its entry is the last one of both lists and of the chain, and no
-- other entry there is of its commit, whether or not it had been recorded before; and its commit, parent
-- and tree are the expected ones, with the id of the step that follows.
pub finalize_accepted_step-IsRecorded :
    (fits : Value → Bool) (now : String) (c : Committed) (r r' : RunDir)
    → finalize_accepted_step fits now c r ≡ (ok tt, r')
    → IsRecorded c r'
finalize_accepted_step-IsRecorded fits now c r r' h =
    let m = finalize-IsMerged fits now c r r' h in
    record {
      state = m.state';
      loaded = m.loaded';
      steps = merged c.commit_sha c.row m.steps;
      commits = merged c.commit_sha c.row m.commits;
      chain = merged c.commit_sha c.row (accepted_chain_records fits r.accepted_chain);
      steps_read = m.steps_read;
      commits_read = m.commits_read;
      chain_read = m.chain_read;
      steps_once = merged-IsOnce c m.steps;
      commits_once = merged-IsOnce c m.commits;
      chain_once = merged-IsOnce c (accepted_chain_records fits r.accepted_chain);
      head = m.head;
      parent = m.parent;
      tree = m.tree;
      next = m.next;
    }

-- The key `k` of the store's state is the same in both directories.
abbrev pub SameField : String → RunDir → RunDir → Type 0
SameField k r r' =
    (st st' : Fields) × (load r.disk.state_file ≡ ok st)
    × (load r'.disk.state_file ≡ ok st')
    × (get st' k ≡ get st k)

listed-arr : (v : Value) (vs ws : Items) → v ≡ arr vs → listed v ≡ ok ws → ws ≡ vs
unfolding listed
listed-arr v vs ws e h = sym (ok-injective (rw e at h))

again_merged :
    (c : Committed) (vs ws : Items)
    → get c.row "commit_sha" ≡ str c.commit_sha
    → ws ≡ merged c.commit_sha c.row vs
    → merged c.commit_sha c.row ws ≡ merged c.commit_sha c.row vs
again_merged c vs ws named e =
    ap (merged c.commit_sha c.row) e ∙ merged_idem c.commit_sha c.row vs named

abbrev chain_of : Committed → Items → Value
chain_of c vs = obj (field "commits" (arr (merged c.commit_sha c.row vs)) end)

-- The chain behind a second recording: the one before, unless that does not fit the limit of a read; then
-- only the entry of the step is left.
abbrev pub chain_again : (Value → Bool) → Committed → Value → Value
chain_again fits c v = if fits v then v else obj (field "commits" (arr (cons (obj c.row) nil)) end)

again_chain :
    (fits : Value → Bool) (c : Committed) (r r' r'' : RunDir)
    → get c.row "commit_sha" ≡ str c.commit_sha
    → r'.accepted_chain ≡ chain_of c (accepted_chain_records fits r.accepted_chain)
    → r''.accepted_chain ≡ chain_of c (accepted_chain_records fits r'.accepted_chain)
    → r''.accepted_chain ≡ chain_again fits c r'.accepted_chain
unfolding merged others with_last
again_chain fits c r r' r'' named e k = elim (Bool-cases (fits r'.accepted_chain)) [
  | inl fit ↦
      let read = chain_read_back fits r.accepted_chain r'.accepted_chain c.commit_sha c.row e fit in
      rw fit (
        k
        ∙ ap (λ x. obj (field "commits" (arr x) end))
            (again_merged c (accepted_chain_records fits r.accepted_chain)
              (accepted_chain_records fits r'.accepted_chain) named read)
        ∙ sym e)
  | inr large ↦ rw large (k ∙ ap (chain_of c) (chain_unread fits r'.accepted_chain large))
]

-- When a committed step was recorded and then recorded again, at any time, the second recording has left
-- both lists as they were, if the entry of the step names its commit, and the chain too, if that fits
-- the limit of a read. A chain that does not fit is replaced by one of the step's entry only.
pub finalize_accepted_step_again :
    (fits : Value → Bool) (now now' : String) (c : Committed) (r r' r'' : RunDir)
    → get c.row "commit_sha" ≡ str c.commit_sha
    → finalize_accepted_step fits now c r ≡ (ok tt, r')
    → finalize_accepted_step fits now' c r' ≡ (ok tt, r'')
    → (r''.accepted_chain ≡ chain_again fits c r'.accepted_chain)
      × SameField "accepted_steps" r' r''
      × SameField "accepted_commits" r' r''
finalize_accepted_step_again fits now now' c r r' r'' named h k =
    let m = finalize-IsMerged fits now c r r' h in
    let n = finalize-IsMerged fits now' c r' r'' k in
    let same : n.state ≡ m.state' = ok-injective (sym n.loaded ∙ m.loaded') in
    let steps =
      listed-arr (get n.state "accepted_steps") (merged c.commit_sha c.row m.steps) n.steps
        (ap (λ s. get s "accepted_steps") same ∙ m.steps_read) n.steps_listed in
    let commits =
      listed-arr (get n.state "accepted_commits") (merged c.commit_sha c.row m.commits) n.commits
        (ap (λ s. get s "accepted_commits") same ∙ m.commits_read) n.commits_listed in
    (
      again_chain fits c r r' r'' named m.chain_read n.chain_read,
      (
        m.state',
        n.state',
        m.loaded',
        n.loaded',
        n.steps_read ∙ ap arr (again_merged c m.steps n.steps named steps) ∙ sym m.steps_read,
      ),
      (
        m.state',
        n.state',
        m.loaded',
        n.loaded',
        n.commits_read
            ∙ ap arr (again_merged c m.commits n.commits named commits)
            ∙ sym m.commits_read,
      ),
    )
