-- ===== src/Controllers/Blocks.antt =====
-- internal/controller/block_controller.go and indexer_controller.go.
use block_explorer_backend.Prelude.{ℕ, String, ◌||◌, Option, none, some, is_empty, if◌then◌else◌}
use block_explorer_backend.Text.Numbers.{parse_uint}
use block_explorer_backend.Errors.Http.{Response, write_error, write_success, write_bad_request}
use block_explorer_backend.Effect.{Io}
use block_explorer_backend.Models.{BlockQueryResult}
use block_explorer_backend.Dto.{
  BlockDetailDto, BlockRangeSyncResult, IndexerStatus, IndexerOnceResult,
}
use block_explorer_backend.Mapper.{map_block_query_result_to_dto}
use block_explorer_backend.BlockService.Range.{RangeReturn}
use block_explorer_backend.Controllers.{
  Request, Handler, answer_with, Parsed, parsed, refused, when_parsed,
}

pub record BlockController (W : Type 0) : Type 0 where
  pub get_block_by_number : ℕ → Io W BlockQueryResult
  pub sync_block_to_db : ℕ → Io W (Unit {0})
  pub sync_block_range_to_db : ℕ → ℕ → W → RangeReturn × W

-- `strconv.ParseUint(s, 10, 64)`, with the message for a failure.
abbrev pub uint_or : String → Option ℕ → Parsed ℕ
uint_or message none = refused message
uint_or message (some n) = parsed n

unfoldable pub parse_block_number : Request → Parsed ℕ
parse_block_number c =
    let number_str = c.param "number" in
    if is_empty number_str
    then refused "block number is required"
    else uint_or "invalid block number" (parse_uint 10 number_str)

-- The response of `SyncBlockRange` to what the service returns.
abbrev pub range_written : RangeReturn → Response (Option BlockRangeSyncResult)
range_written (result, some e) = write_error e
range_written (result, none) = write_success result

module _ {W : Type 0} (ctl : BlockController W) where
  unfoldable pub get_block : Request → Handler W BlockDetailDto
  unfolding parse_block_number
  get_block c =
      when_parsed (parse_block_number c)
        (λ number. answer_with map_block_query_result_to_dto (ctl.get_block_by_number number))

  unfoldable pub sync_block : Request → Handler W ℕ
  unfolding parse_block_number
  sync_block c =
      when_parsed (parse_block_number c)
        (λ number. answer_with (λ _. number) (ctl.sync_block_to_db number))

  abbrev pub sync_from : ℕ → ℕ → Handler W (Option BlockRangeSyncResult)
  sync_from start end w =
      let (ret, w') = ctl.sync_block_range_to_db start end w in (range_written ret, w')

  unfoldable pub sync_block_range : Request → Handler W (Option BlockRangeSyncResult)
  sync_block_range c =
      let start_str = c.query "start" in
      let end_str = c.query "end" in
      if is_empty start_str || is_empty end_str
      then (λ w. (write_bad_request "start and end are required", w))
      else when_parsed (uint_or "invalid start" (parse_uint 10 start_str)) (λ start.
        when_parsed (uint_or "invalid end" (parse_uint 10 end_str)) (λ end. sync_from start end))

pub record IndexerController (W : Type 0) : Type 0 where
  pub get_next_block_to_sync : Io W IndexerStatus
  pub run_indexer_once : Io W IndexerOnceResult

module _ {W : Type 0} (ctl : IndexerController W) where
  unfoldable pub get_sync_status_of_indexer : Request → Handler W IndexerStatus
  get_sync_status_of_indexer c = answer_with (λ status. status) ctl.get_next_block_to_sync

  unfoldable pub run_once : Request → Handler W IndexerOnceResult
  run_once c = answer_with (λ result. result) ctl.run_indexer_once
