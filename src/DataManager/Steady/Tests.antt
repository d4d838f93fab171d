-- ===== src/DataManager/Steady/Tests.antt =====
-- A request to the data manager whose tables are lists.
use mirdb.Prelude.{◌≡◌, ◌≢◌, refl, false, none, [], ◌++◌, Slice, codes}
use mirdb.Error.{MyResult}
use mirdb.Request.{Request, SetterType}
use mirdb.ParserUtil.{
  ok, take_at_least, split, opt, alt, done, done_or_panic, ◌>>=◌, ◌>>◌, space, digit, u32_parser,
  usize_parser, tag,
}
use mirdb.Parser.{parse, getter, setter, key_parser, crlf}
use mirdb.Levels.{get_from}
use mirdb.Store.{DataOps, apply}
use mirdb.Store.Safety.{IsSteady, ok-ne-panic, apply-parsed_safe}
use mirdb.DataManager.{get, find_memory}
use mirdb.DataManager.Service.{manager_ops}
use mirdb.DataManager.Steady.{PartsReturn, IsReadable, manager_steady}
use mirdb.DataManager.Tests.{parts, laws, start, no_info, no_compaction, encoded}

returns : PartsReturn parts
returns = record {
  serialize_returns = λ v. ok-ne-panic (encoded v);
  compress_returns = λ x. ok-ne-panic x;
  write_returns = λ file buf. ok-ne-panic tt;
  flush_returns = λ file. ok-ne-panic tt;
  create_returns = λ n. ok-ne-panic tt;
}

abbrev manager : DataOps
manager = manager_ops parts no_info no_compaction

abbrev steady : IsSteady manager
steady = manager_steady parts laws returns no_info no_compaction (λ s h. (ok-ne-panic tt, h))

start-IsReadable : IsReadable parts laws returns start
unfolding get find_memory get_from
start-IsReadable k = ok-ne-panic none

abbrev set_abc : Request
set_abc = Request.setter SetterType.set (codes "abc") 1 10 2 (codes "xy") false

abbrev wire_set : Slice
wire_set = codes "set abc 1 10 2" ++ crlf ++ codes "xy" ++ crlf

wire_set-parse : parse wire_set ≡ ok [] set_abc
unfolding parse getter setter key_parser alt take_at_least split opt done done_or_panic ◌>>=◌ ◌>>◌
    space digit u32_parser usize_parser tag
wire_set-parse = refl

apply-parsed_safe_example :
    ((apply manager 5 set_abc start).1 ≢ MyResult.panic)
    × steady.IsSafe (apply manager 5 set_abc start).0
unfolding manager_steady
apply-parsed_safe_example =
    apply-parsed_safe manager steady 5 wire_set [] set_abc start start-IsReadable wire_set-parse
