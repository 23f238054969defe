-- ===== src/BlockService/Range/Loop.antt =====
-- The report of a range synchronisation, and that enough fuel gives one.
use mathlib.Core.Path.{ap₂}
use block_explorer_backend.Prelude.{
  ℕ, zero, suc, ◌+◌, ◌-◌, ◌≤◌, ◌<◌, ◌≡◌, refl, sym, ap, ◌∙◌, ◌%◌, Bool, true, false, Bool-cases,
  inl, inr, Option, none, some, List, [], ◌∷◌, ◌++◌, arith, ltb, ltb→lt, length, length-append, All,
}
use block_explorer_backend.Prelude.Int.{two_64}
use block_explorer_backend.Errors.{GoError}
use block_explorer_backend.Effect.{Result, ok, err, Io}
use block_explorer_backend.Dto.{BlockRangeSyncResult}
use block_explorer_backend.Text.{Unicode}
use block_explorer_backend.Ethereum.{Geth}
use block_explorer_backend.BlockService.Interfaces.{BlockService}
use block_explorer_backend.BlockService.Defs.{sync_block_to_db}
use block_explorer_backend.BlockService.Range.{
  inc64, is_fatal, RangeReturn, count_success, count_failure, after_failure, after_sync, sync_loop,
  start_result, sync_range, sync_block_range_to_db,
}

abbrev pub InRange : ℕ → ℕ → ℕ → Type 0
InRange start bound n = (start ≤ n) × (n < bound)

ltb-false : (a b : ℕ) → ltb a b ≡ false → b ≤ a
ltb-false a b h = ground arith

-- The calls for `start`, `start + 1`, … one after another, `k` of them: the world after them, how many
-- have succeeded, and the numbers of those that have failed.
module _ {W : Type 0} (sync : ℕ → Io W (Unit {0})) (start : ℕ) (w : W) where
  abbrev pub world_after : ℕ → W
  world_after zero = w
  world_after (suc k) = (sync (start + k) (world_after k)).1

  abbrev pub count_ok : Result (Unit {0}) → ℕ → ℕ
  count_ok (ok _) n = n + 1
  count_ok (err e) n = n

  abbrev pub add_failed : Result (Unit {0}) → ℕ → List ℕ → List ℕ
  add_failed (ok _) n ns = ns
  add_failed (err e) n ns = ns ++ n ∷ []

  abbrev pub successes : ℕ → ℕ
  successes zero = 0
  successes (suc k) = count_ok (sync (start + k) (world_after k)).0 (successes k)

  abbrev pub failures : ℕ → List ℕ
  failures zero = []
  failures (suc k) = add_failed (sync (start + k) (world_after k)).0 (start + k) (failures k)

-- What holds of the result and of the world when the loop stands at `number`.
pub record IsProgress {W : Type 0} (sync : ℕ → Io W (Unit {0})) (w₀ : W) (start end number : ℕ)
    (r : BlockRangeSyncResult) (w : W) : Type 0 where
  pub world : w ≡ world_after sync start w₀ (number - start)
  pub all_succeeded : r.succeeded ≡ successes sync start w₀ (number - start)
  pub all_failed : r.failed_blocks ≡ failures sync start w₀ (number - start)
  pub from : r.start ≡ start
  pub to : r.end ≡ end
  pub requested : r.requested ≡ end - start + 1
  pub counted : r.succeeded + r.failed ≡ number - start
  pub listed : length r.failed_blocks ≡ r.failed
  pub in_range : All (InRange start number) r.failed_blocks

All-widen :
    (start bound : ℕ) (ns : List ℕ)
    → All (InRange start bound) ns
    → All (InRange start (bound + 1)) ns
All-widen a b [] h = tt
All-widen a b (n ∷ ns) h = (omega arith, All-widen a b ns h.1)

All-snoc :
    (start bound : ℕ) (ns : List ℕ)
    → start ≤ bound
    → All (InRange start bound) ns
    → All (InRange start (bound + 1)) (ns ++ bound ∷ [])
All-snoc a b [] l h = omega arith
All-snoc a b (n ∷ ns) l h = (omega arith, All-snoc a b ns l h.1)

module _ {W : Type 0} {sync : ℕ → Io W (Unit {0})} {w₀ : W} {start end number : ℕ}
    {r : BlockRangeSyncResult} {w : W} (lower : start ≤ number) (small : number + 1 < two_64)
    (p : IsProgress sync w₀ start end number r w) where
  -- The number of calls so far.
  abbrev calls : ℕ
  calls = number - start

  one_more : number + 1 - start ≡ suc calls
  one_more = omega arith

  -- The next call is the one for `number`.
  next_call : sync (start + calls) (world_after sync start w₀ calls) ≡ sync number w
  next_call = let here : start + calls ≡ number = omega arith in ap₂ sync here (sym p.world)

  next_world : (sync number w).1 ≡ world_after sync start w₀ (number + 1 - start)
  next_world = rw one_more (sym (ap (λ x. x.1) next_call))

  next_successes :
      (o : Result (Unit {0}))
      → (sync number w).0 ≡ o
      → count_ok sync start w₀ o r.succeeded ≡ successes sync start w₀ (number + 1 - start)
  next_successes o done = rw one_more (
      ap₂ (λ x n. count_ok sync start w₀ x n) (sym done ∙ sym (ap (λ x. x.0) next_call))
        p.all_succeeded)

  next_failures :
      (o : Result (Unit {0}))
      → (sync number w).0 ≡ o
      → add_failed sync start w₀ o number r.failed_blocks
        ≡ failures sync start w₀ (number + 1 - start)
  next_failures o done =
      let here : number ≡ start + calls = omega arith in
      let told : o ≡ (sync (start + calls) (world_after sync start w₀ calls)).0 =
        sym done ∙ sym (ap (λ x. x.0) next_call) in
      rw one_more (
        ap (λ n. add_failed sync start w₀ o n r.failed_blocks) here
        ∙ ap₂ (λ x ns. add_failed sync start w₀ x (start + calls) ns) told p.all_failed)

  success-IsProgress :
      (sync number w).0 ≡ ok tt
      → IsProgress sync w₀ start end (number + 1) (count_success r) (sync number w).1
  success-IsProgress done =
      let fits : (r.succeeded + 1) % two_64 ≡ r.succeeded + 1 = omega (arith, p.counted) in
      record {
        world = next_world;
        all_succeeded = fits ∙ next_successes (ok tt) done;
        all_failed = next_failures (ok tt) done;
        from = p.from;
        to = p.to;
        requested = p.requested;
        counted = omega (arith, p.counted);
        listed = p.listed;
        in_range = All-widen start number r.failed_blocks p.in_range;
      }

  failure-IsProgress :
      (e : GoError)
      → (sync number w).0 ≡ err e
      → IsProgress sync w₀ start end (number + 1) (count_failure number r) (sync number w).1
  failure-IsProgress e failed = record {
    world = next_world;
    all_succeeded = next_successes (err e) failed;
    all_failed = next_failures (err e) failed;
    from = p.from;
    to = p.to;
    requested = p.requested;
    counted = omega (arith, p.counted);
    listed = omega (arith, length-append r.failed_blocks (number ∷ []), p.listed, p.counted);
    in_range = All-snoc start number r.failed_blocks lower p.in_range;
  }

-- A finished call: a result that counts the outcomes of the calls for the blocks before `stop`, one
-- after another from `w₀`, in the world that they leave.
pub record IsReport {W : Type 0} (sync : ℕ → Io W (Unit {0})) (w₀ : W) (start end : ℕ)
    (ret : RangeReturn) (w : W) : Type 0 where
  pub stop : ℕ
  pub result : BlockRangeSyncResult
  pub returned : ret.0 ≡ some result
  pub progress : IsProgress sync w₀ start end stop result w
  pub in_order : (start ≤ stop) × (stop ≤ end + 1)
  pub complete : ret.1 ≡ none → stop ≡ end + 1

module _ {W : Type 0} (ctx_done : W → Bool) (sync : ℕ → Io W (Unit {0})) (w₀ : W) where
  abbrev Reports : ℕ → ℕ → Option (RangeReturn × W) → Type 0
  Reports start end none = ⊥
  Reports start end (some (ret, w)) = IsReport sync w₀ start end ret w

  module _ {start end number : ℕ} {r : BlockRangeSyncResult} (w : W) (lower : start ≤ number)
      (upper : number ≤ end) (small : number + 1 < two_64)
      (p : IsProgress sync w₀ start end number r w)
      (next : BlockRangeSyncResult → Option (RangeReturn × W))
      (rest : (r' : BlockRangeSyncResult)
        → IsProgress sync w₀ start end (number + 1) r' (sync number w).1
        → Reports start end (next r')) where
    after_failure-Reports :
        (b : Bool) (e : GoError)
        → (sync number w).0 ≡ err e
        → Reports start end (after_failure number r (sync number w).1 b e next)
    after_failure-Reports true e failed = record {
      stop = number + 1;
      result = count_failure number r;
      returned = refl;
      progress = failure-IsProgress lower small p e failed;
      in_order = omega arith;
      complete = λ h. cc;
    }
    after_failure-Reports false e failed =
        rest (count_failure number r) (failure-IsProgress lower small p e failed)

    after_sync-Reports :
        (o : Result (Unit {0}))
        → (sync number w).0 ≡ o
        → Reports start end (after_sync number r (sync number w).1 o next)
    after_sync-Reports (ok _) done = rest (count_success r) (success-IsProgress lower small p done)
    after_sync-Reports (err e) failed = after_failure-Reports (is_fatal e) e failed

  sync_loop-Reports :
      (fuel start end number : ℕ) (r : BlockRangeSyncResult) (w : W)
      → start ≤ number
      → number ≤ end + 1
      → end + 1 < two_64
      → end + 1 < number + fuel
      → IsProgress sync w₀ start end number r w
      → Reports start end (sync_loop ctx_done sync fuel end number r w)
  unfolding sync_loop
  sync_loop-Reports zero start end number r w l h small enough p = absurd (omega arith)
  sync_loop-Reports (suc fuel) start end number r w l h small enough p =
      elim (Bool-cases (ltb end number)) [
        | inl past ↦ rw past (record {
          stop = number;
          result = r;
          returned = refl;
          progress = p;
          in_order = (l, h);
          complete = λ _. omega (arith, ltb→lt end number past);
        })
        | inr within ↦
            let upper : number ≤ end = ltb-false end number within in
            let no_wrap : inc64 number ≡ number + 1 = omega arith in
            rw within (elim (Bool-cases (ctx_done w)) [
              | inl done ↦ rw done (record {
                stop = number;
                result = r;
                returned = refl;
                progress = p;
                in_order = (l, h);
                complete = λ e. cc;
              })
              | inr going ↦ rw going (
                  after_sync-Reports w l upper (omega arith) p
                    (λ r'. sync_loop ctx_done sync fuel end (inc64 number) r' (sync number w).1)
                    (λ r' p'. rw no_wrap (
                      sync_loop-Reports fuel start end (number + 1) r' (sync number w).1
                        (omega arith) (omega arith) small (omega arith) p'))
                    (sync number w).0 refl)
            ])
      ]

start-IsProgress :
    {W : Type 0} (sync : ℕ → Io W (Unit {0})) (w : W) (start end : ℕ)
    → start ≤ end
    → end + 1 < two_64
    → IsProgress sync w start end start (start_result start end) w
start-IsProgress sync w start end h small =
    let none_yet : start - start ≡ 0 = omega arith in
    record {
      world = rw none_yet refl;
      all_succeeded = rw none_yet refl;
      all_failed = rw none_yet refl;
      from = refl;
      to = refl;
      requested = omega arith;
      counted = omega arith;
      listed = refl;
      in_range = tt;
    }

sync_range-Reports :
    {W : Type 0} (ctx_done : W → Bool) (sync : ℕ → Io W (Unit {0})) (fuel start end : ℕ) (w : W)
    → start ≤ end
    → end - start < 100
    → end + 1 < two_64
    → end - start + 1 < fuel
    → Reports ctx_done sync w start end (sync_range ctx_done sync fuel start end w)
unfolding sync_range
sync_range-Reports ctx_done sync fuel start end w h few small enough =
    let ordered : ltb end start ≡ false = ground arith in
    let in_bound : ltb 100 (inc64 (end - start)) ≡ false = ground arith in
    rw (ordered, in_bound)
      (sync_loop-Reports ctx_done sync w fuel start end start (start_result start end) w
        (omega arith) (omega arith) small (omega arith) (start-IsProgress sync w start end h small))

returns_of_Reports :
    {W : Type 0} (ctx_done : W → Bool) (sync : ℕ → Io W (Unit {0})) (w : W) (start end : ℕ)
    (x : Option (RangeReturn × W))
    → Reports ctx_done sync w start end x
    → (ret : RangeReturn) × (w' : W) × (x ≡ some (ret, w')) × IsReport sync w start end ret w'
returns_of_Reports ctx_done sync w start end none h = absurd h
returns_of_Reports ctx_done sync w start end (some (ret, w')) h = (ret, w', refl, h)

-- For a range of at most 100 blocks that ends below the largest uint64, with more fuel than blocks,
-- the loop ends with a report of the calls of `SyncBlockToDB` for the blocks of the range from the
-- start on, one after another, and in the world that they leave: the requested number is the number of
-- blocks in the range, the successes are counted, the listed blocks are those whose call has failed, in
-- their order, and as many as the count of failures, and if no error is returned then every block of the
-- range was tried.
pub sync_block_range_to_db-IsReport :
    {W : Type 0} (u : Unicode) (g : Geth) (ctx_done : W → Bool) (s : BlockService W)
    (fuel start end : ℕ) (w : W)
    → start ≤ end
    → end - start < 100
    → end + 1 < two_64
    → end - start + 1 < fuel
    → (ret : RangeReturn) × (w' : W) × (sync_block_range_to_db u g ctx_done s fuel start end w
        ≡ some (ret, w'))
      × IsReport (sync_block_to_db u g s) w start end ret w'
unfolding sync_block_range_to_db
sync_block_range_to_db-IsReport u g ctx_done s fuel start end w h few small enough =
    returns_of_Reports ctx_done (sync_block_to_db u g s) w start end _
      (sync_range-Reports ctx_done (sync_block_to_db u g s) fuel start end w h few small enough)
