-- ===== src/Steps/Settled.antt =====
-- orchestration/step_execution.py: the result of `_settle`.
use meta_harness.Common.{
  String, ◌≡◌, refl, sym, ap, ◌∙◌, true, false, none, some, ◌==◌, if◌then◌else◌, inl, inr,
  Bool-cases,
}
use meta_harness.Common.Outcome.{Outcome, ok, raised, map_raised}
use meta_harness.Common.Effect.{
  ◌>>◌, on_first, on_first-ok, continue-ok, continue-reading, giving-ok,
}
use meta_harness.Json.{Value, null, obj, Fields, get, has_key}
use meta_harness.Json.Laws.{IsDict}
use meta_harness.Store.Disk.{Disk, StoreError, load}
use meta_harness.Store.Writes.{update_metadata}
use meta_harness.Store.Fields.{update_metadata-loads}
use meta_harness.Steps.Finalize.{RunDir, read_json_artifact}
use meta_harness.Steps.Settle.{
  SettleError, not_stored, not_settled, status_in, settled_step_status, settled_fields, SettleHost,
}
use meta_harness.Steps.Settling.{on_store, write_record, store_settled, settle}

on_store-parts :
    {A : Type 0} (p : Outcome StoreError A × Disk) (r : RunDir) {a : A} {r' : RunDir}
    → ◌≡◌ {A = Outcome SettleError A × RunDir}
        (map_raised not_stored p.0, record r { disk = p.1 })
        (ok a, r')
    → (p ≡ (ok a, r'.disk)) × (r'.step_record ≡ r.step_record)
on_store-parts (ok b, d) r h = (cc, ap (λ x. x.1.step_record) (sym h))
on_store-parts (raised e, d) r h = cc

-- A settled step: its record is written, and no step is current.
pub record IsSettledAs {W : Type 0} (host : SettleHost W) (d : Fields) (r : RunDir) : Type 0 where
  pub written : r.step_record ≡ obj d
  pub state : Fields
  pub loaded : load r.disk.state_file ≡ ok state
  pub idle : get state "current_step" ≡ null

settled_fields-IsDict : (rows : Value) → IsDict (settled_fields rows)
unfolding has_key
settled_fields-IsDict rows = (refl, (refl, tt))

idle_state :
    (rows : Value) (st : Fields)
    → ((k : String)
        → has_key (settled_fields rows) k ≡ true
        → "updated_at" == k ≡ false
        → get st k ≡ get (settled_fields rows) k)
    → get st "current_step" ≡ null
unfolding get has_key
idle_state rows st reads = reads "current_step" refl refl

module _ {W : Type 0} (host : SettleHost W) where
  -- The write of the store leaves the repository and the record alone, and no step is current.
  store_settled-idle :
      (s : RunDir × W) {u : Unit {0}} {s' : RunDir × W}
      → store_settled host s ≡ (ok u, s')
      → (s'.1 ≡ s.1)
        × (s'.0.step_record ≡ s.0.step_record)
        × (st : Fields) × (load s'.0.disk.state_file ≡ ok st)
        × (get st "current_step" ≡ null)
  unfolding store_settled on_store
  store_settled-idle (r, w) h =
      let (rows, p3, k3) =
        continue-reading (map_raised not_settled (host.state_steps r)) (r, w) _ h in
      let save = update_metadata (host.now w) none (settled_fields rows) in
      let (saving, s4, p4, k4) = continue-ok (on_first (λ e. e) (on_store save) (r, w)) _ k3 in
      let stored = on_first-ok (λ e. e) (on_store save) (r, w) p4 in
      let (saved, kept) = on_store-parts (save r.disk) r stored.0 in
      let (st, there, reads) =
        update_metadata-loads (host.now w) (settled_fields rows) r.disk s4.0.disk saving
          (settled_fields-IsDict rows) saved in
      let last = (giving-ok k4).1 in
      (
        ap (λ x. x.1) (sym last) ∙ stored.1,
        ap (λ x. x.0.step_record) (sym last) ∙ kept,
        st,
        ap (λ x. load x.0.disk.state_file) (sym last) ∙ there,
        idle_state rows st reads,
      )

  pub settle-IsSettledAs :
      (d : Fields) (s : RunDir × W) {u : Unit {0}} {s' : RunDir × W}
      → settle host d s ≡ (ok u, s')
      → (s'.1 ≡ s.1) × IsSettledAs host d s'.0
  unfolding settle write_record
  settle-IsSettledAs d s {s' = s'} h =
      let write = on_first (λ e. e) (write_record host d) in
      let (u1, s1, p1, k1) =
        continue-ok (on_first not_settled host.archive_attempt s) (λ u. write >> store_settled host)
          h in
      let (u2, s2, p2, k2) = continue-ok (write s1) (λ u. store_settled host) k1 in
      let archived = on_first-ok not_settled host.archive_attempt s p1 in
      let wrote = on_first-ok (λ e. e) (write_record host d) s1 p2 in
      let (still, kept, st, there, idle) = store_settled-idle s2 k2 in
      (
        still ∙ wrote.1 ∙ archived.1,
        record {
          written = kept ∙ ap (λ x. x.1.step_record) (sym wrote.0);
          state = st;
          loaded = there;
          idle = idle;
        },
      )

  -- The status that is read of a settled step: none, if its record is too large.
  pub status-settled :
      (d : Fields) (r : RunDir) (step_id status : String)
      → IsSettledAs host d r
      → status_in (obj d) step_id ≡ ok (some status)
      → settled_step_status host.readable r.step_record step_id
        ≡ ok (if host.readable (obj d) then some status else none)
  unfolding settled_step_status read_json_artifact status_in
  status-settled d r step_id status settled h = elim (Bool-cases (host.readable (obj d))) [
    | inl e ↦ rw (settled.written, e) h
    | inr e ↦ rw (settled.written, e) refl
  ]
