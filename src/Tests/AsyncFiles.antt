-- ===== src/Tests/AsyncFiles.antt =====
-- Files read by the event loop, on examples.
use cse124_httpserver.Base.{◌≡◌, arith, true, some, [], ◌∷◌, ◌++◌, codes, ok, no_fuel}
use cse124_httpserver.AsyncFiles.{got, read_blocks, FileReadPollable, read_contents}
use cse124_httpserver.AsyncFiles.Reading.{deliver_file, deliver_file-gathered}
use cse124_httpserver.AsyncFiles.Failing.{failing_files, reported, loop-failing}
use cse124_httpserver.EventLoop.{loop}

abbrev cat_file : FileReadPollable
cat_file = read_contents (codes "/cat") 3

deliver_file-gathered_example :
    deliver_file ((got (codes "me") ∷ read_blocks ∷ got (codes "ow") ∷ []) ++ got [] ∷ []) cat_file
    ≡ ok (record cat_file { buffer = codes "meow"; done = true }, some (codes "meow"))
deliver_file-gathered_example =
    deliver_file-gathered (got (codes "me") ∷ read_blocks ∷ got (codes "ow") ∷ []) cat_file
      (((λ e. cc), omega arith), (tt, (((λ e. cc), omega arith), tt)))

-- Two turns, a minute and an hour after the read began.
loop-failing_example :
    loop failing_files (reported ((0, 63) ∷ (7, 3603) ∷ [])) (cat_file ∷ []) ≡ no_fuel
loop-failing_example = loop-failing ((0, 63) ∷ (7, 3603) ∷ []) cat_file
