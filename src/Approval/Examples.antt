-- ===== src/Approval/Examples.antt =====
-- An approval that two processes see.
use mcpx.Base.{◌+◌, ◌≤◌, ◌≡◌, refl, false, some, List, [], ◌∷◌, codes}
use mcpx.Approval.Store.{Pending, remove_row}
use mcpx.Approval.Once.{
  Call, putting, consuming, getting, listing, taken, put_count, waiting, consumed_once,
}
use mcpx.Approval.Answers.{Rights, answers_right}

abbrev command : Pending
command = record {
  id = codes "a_1";
  tool = codes "command_execute";
  summary = [];
  command = codes "rm -r build";
  command_yield_ms = 0;
  purpose = [];
  scope = codes "workspace";
  command_digest = [];
  work_dir = [];
  request_id = [];
  workspace = [];
  remote_session = codes "rs_1";
  principal = codes "alice";
  confirmation_token = codes "ct_1";
  content_key = codes "key";
  delete_files = [];
  created_at = 5;
}

abbrev another : Pending
another = record command { id = codes "a_2" }

-- It is put, put again, and consumed by each of two processes that have it in their maps.
abbrev calls : List (List Pending × Call)
calls =
    ([], putting false false false [] [] 5 6 (some 5) command)
    ∷ (command ∷ [], putting false false false [] [] 7 8 (some 7) another)
    ∷ (command ∷ [], consuming false false false 1000000 2000000 (codes "a_1"))
    ∷ (command ∷ [], consuming false false false 1000000 3000000 (codes "a_1"))
    ∷ ([], getting false false 3000000 3000000 (codes "a_1"))
    ∷ ([], listing false false 3000000 3000000 (codes "rs_1"))
    ∷ []

consumed_once_example :
    taken (codes "a_1") calls [] ≤ put_count (codes "a_1") calls [] + waiting (codes "a_1") []
consumed_once_example = consumed_once (codes "a_1") calls []

answers_right_example : Rights calls []
answers_right_example = answers_right calls [] refl tt

one_is_taken : taken (codes "a_1") calls [] ≡ 1
unfolding taken remove_row
one_is_taken = refl
