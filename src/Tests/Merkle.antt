-- ===== src/Tests/Merkle.antt =====
-- pkgs/helpers/merkle on a few keys.
use mathlib.Core.List.{Perm}
use mathlib.Core.List.Permᴰ
use submission_sequencer_bat.Prelude.{◌≤◌, ◌≡◌, refl, true, List, [], ◌∷◌, All, filter_by, concat}
use submission_sequencer_bat.Prelude.Text.{Text, text, text_eq, split}
use submission_sequencer_bat.Prelude.Decimal.{digits}
use submission_sequencer_bat.Prelude.Sort.{sort_texts}
use submission_sequencer_bat.Prelude.Dict.{lookup, insert}
use submission_sequencer_bat.Data.{BatchSubmission}
use submission_sequencer_bat.Redis.Keys.{triggered_process_log}
use submission_sequencer_bat.Redis.Client.{get, set_process_log}
use submission_sequencer_bat.Clients.Reporting.{send_failure_notification}
use submission_sequencer_bat.Ipfs.{store_on_ipfs}
use submission_sequencer_bat.Merkle.Arrange.{
  project_of, group_keys, arrange_keys_in_batches, push, place, close, pack,
}
use submission_sequencer_bat.Merkle.Arrange.Grouping.{well_formed, count_project}
use submission_sequencer_bat.Merkle.Arrange.Whole.{IsWhole}
use submission_sequencer_bat.Merkle.Arrange.Laws.{
  IsFit, arrange-Perm, arrange-IsFit, arrange-IsWhole,
}
use submission_sequencer_bat.Merkle.Tally.{
  Tally, fresh, count_keys, count_key, goes_on, frequency, leader, count_value, add_one,
}
use submission_sequencer_bat.Merkle.Tally.Votes.{votes, count_keys_plurality}
use submission_sequencer_bat.Merkle.Build.{build_batch, update_merkle_tree, get_root_hash, report}
use submission_sequencer_bat.Merkle.Finalize.{State, finalize_batches, finalize_batch, build_tally}
use submission_sequencer_bat.Merkle.Finalize.Ids.{Numbers, finalize_batches-Numbers}
use submission_sequencer_bat.Merkle.Finalize.Leak.{has, failed_batch_leaks}
use submission_sequencer_bat.Tests.Memory.{World, memory, nothing, retries}

abbrev keys : List Text
keys = text "1.p.a" ∷ text "1.q.b" ∷ text "1.p.c" ∷ text "bad" ∷ text "1.p.d" ∷ []

abbrev filled : World
filled = record nothing {
  values =
      (text "1.p.a", text "i.x")
      ∷ (text "1.q.b", text "j.y")
      ∷ (text "1.p.c", text "k.z")
      ∷ (text "1.p.d", text "l.z")
      ∷ [];
}

arranged :
    (arrange_keys_in_batches memory 3 keys filled).0
    ≡ (text "1.p.a" ∷ text "1.p.c" ∷ text "1.p.d" ∷ []) ∷ (text "1.q.b" ∷ []) ∷ []
unfolding arrange_keys_in_batches group_keys project_of split push lookup insert text_eq place close
    pack send_failure_notification
arranged = refl

arrange-Perm_example :
    Perm (concat (arrange_keys_in_batches memory 3 keys filled).0) (filter_by well_formed keys)
arrange-Perm_example = arrange-Perm memory (λ m. Permᴰ.refl m) 3 keys filled

arrange-IsFit_example : All (IsFit 3) (arrange_keys_in_batches memory 3 keys filled).0
arrange-IsFit_example = arrange-IsFit memory (λ m. Permᴰ.refl m) 3 keys filled

arrange-IsWhole_example :
    All
      (IsWhole (text "p") (count_project (text "p") keys))
      (arrange_keys_in_batches memory 3 keys filled).0
arrange-IsWhole_example = arrange-IsWhole memory (λ m. Permᴰ.refl m) 3 keys filled (text "p")

-- The keys of the project "p", read from `filled`.
abbrev batch : List Text
batch = text "1.p.a" ∷ text "1.p.c" ∷ text "1.p.d" ∷ []

abbrev tally : Tally
tally = record {
  frequencies = (text "p", (text "x", 1) ∷ (text "z", 2) ∷ []) ∷ [];
  most_frequent = (text "p", text "z") ∷ [];
  all_ids = text "i" ∷ text "k" ∷ text "l" ∷ [];
  all_data = text "x" ∷ text "z" ∷ text "z" ∷ [];
}

tallied : (count_keys memory batch fresh filled).0 ≡ goes_on tally
unfolding count_keys count_key get project_of split count_value add_one frequency leader lookup
    insert text_eq
tallied = refl

count_keys_plurality_example :
    (votes memory (text "p") (text "x") batch filled
      ≤ votes memory (text "p") (leader tally.most_frequent (text "p")) batch filled)
    × (frequency tally.frequencies (text "p") (text "x")
        ≡ votes memory (text "p") (text "x") batch filled)
count_keys_plurality_example =
    count_keys_plurality memory (λ a w k. refl) batch filled tally tallied (text "p") (text "x")

finalize_batches-Numbers_example :
    Numbers memory 9 1 (finalize_batches memory (batch ∷ (text "1.q.b" ∷ []) ∷ []) 1 [] 9 filled)
finalize_batches-Numbers_example =
    finalize_batches-Numbers memory (batch ∷ (text "1.q.b" ∷ []) ∷ []) 1 [] 9 filled

-- IPFS fails four times, so the batch of "p" is not stored and the next batch is.
abbrev unsettled : State memory
unsettled = record {
  frequencies = [];
  most_frequent = [];
  tree = [];
  batch_id = 9;
  built = [];
  world = record filled { down = 4 };
}

abbrev pub leaked : BatchSubmission
leaked = record {
  batch = record {
    id = 9;
    submission_ids = text "j" ∷ [];
    submissions = text "y" ∷ [];
    root_hash = text "4";
    pids = text "p" ∷ text "q" ∷ [];
    cids = text "z" ∷ text "y" ∷ [];
  };
  cid = text "cid0";
  epoch_id = 1;
  finalized_cids_root_hash = text "2";
}

failed_batch_leaks_example : has (text "p") leaked.batch.pids ≡ true
unfolding build_batch update_merkle_tree get_root_hash report store_on_ipfs retries finalize_batch
    build_tally count_keys count_key get project_of split count_value add_one frequency leader
    lookup insert text_eq sort_texts digits set_process_log triggered_process_log
    send_failure_notification
failed_batch_leaks_example =
    failed_batch_leaks memory 1 (text "p") tally unsettled (text "1.q.b" ∷ []) refl refl leaked refl
