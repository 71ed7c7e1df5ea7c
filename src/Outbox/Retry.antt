-- ===== src/Outbox/Retry.antt =====
-- packages/database/src/outbox.ts: retryOutboxEvent and the error codes it keeps.
use tabela_pubg.Prelude.{
  ℕ, ◌+◌, ◌-◌, ◌*◌, ◌^◌, min, String, Bool, false, ◌&&◌, ◌||◌, none, some, List, [], ◌∷◌, map,
  update, returning, length, leb, ◌==◌, if◌then◌else◌, codes, trim, Result, ok, ◌>>◌, all,
}
use tabela_pubg.Outbox.{
  assert_non_empty_bounded, assert_integer_in_range, is_held, OutboxEventRow, failed,
  RetryOutboxEventInput,
}

-- `toLowerCase` of a code point, as far as the pattern below can see: the Kelvin sign is the only
-- code point outside ASCII whose lower case is inside.
unfoldable pub lower : ℕ → ℕ
lower c = if leb b'A' c && leb c b'Z' then c + 32 else if c == 0x212a then b'k' else c

unfoldable pub is_word_start : ℕ → Bool
is_word_start c = (leb b'a' c && leb c b'z') || (leb b'0' c && leb c b'9')

unfoldable pub is_word : ℕ → Bool
is_word c = is_word_start c || c == b'.' || c == b'_' || c == b'-'

-- /^[a-z0-9][a-z0-9._-]{0,63}$/
unfoldable pub is_error_code : List ℕ → Bool
is_error_code [] = false
is_error_code (c ∷ cs) = is_word_start c && all is_word cs && leb (length cs) 63

unfoldable pub redact_error_code : String → List ℕ
redact_error_code error_code =
    let normalized = map lower (trim (codes error_code)) in
    if is_error_code normalized then normalized else codes "publish_failed"

unfoldable pub retry_delay : RetryOutboxEventInput → ℕ → ℕ
retry_delay input attempts = min input.max_retry_ms (input.base_retry_ms * 2 ^ (attempts - 1))

unfoldable pub retry_row : RetryOutboxEventInput → OutboxEventRow → OutboxEventRow
retry_row input r = record r {
  status = failed;
  available_at = input.now + retry_delay input r.attempts;
  claim_token = none;
  lease_expires_at = none;
  last_error = some (redact_error_code input.error_code);
}

unfoldable pub check_retry : RetryOutboxEventInput → Result (Unit {0})
check_retry input = do
  assert_non_empty_bounded input.event_id "outbox event id" 128
  assert_non_empty_bounded input.claim_token "outbox claim token" 128
  assert_integer_in_range input.base_retry_ms "outbox base retry" 1 60000
  assert_integer_in_range input.max_retry_ms "outbox maximum retry" input.base_retry_ms 3600000
  assert_integer_in_range input.max_attempts "outbox maximum attempts" 1 100

abbrev pub may_retry : RetryOutboxEventInput → OutboxEventRow → Bool
may_retry input r =
    is_held input.event_id input.claim_token input.now r && leb r.attempts input.max_attempts

unfoldable pub retry_outbox_event :
    List OutboxEventRow → RetryOutboxEventInput → Result (List OutboxEventRow × Bool)
retry_outbox_event rows input = do
  check_retry input
  ok (
    update (may_retry input) (retry_row input) rows,
    length (returning (may_retry input) (retry_row input) rows) == 1,
  )
