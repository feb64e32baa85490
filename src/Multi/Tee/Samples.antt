-- ===== src/Multi/Tee/Samples.antt =====
-- A blob of three bytes read through a tee, and each theorem of the tee at it.
use madder.Common.{ℕ, ◌≡◌, refl, List, [], ◌∷◌, ◌++◌, length, true, false, All, none, some}
use madder.Common.Bytes.{codes, equal_bytes, compare_bytes}
use madder.Multi.Tee.{
  fine, Answer, refused, Setting, MarklId, digest_mismatch, TeeBlobReader, new_tee_blob_reader,
  tee_bytes, read, write_loop, write_to, check_digest, commit, flush_and_commit, Call, read_call,
  write_to_call, seek_call, close_call, Reply, call, run,
}
use madder.Multi.Tee.Closing.{Counted, run-closes}
use madder.Multi.Tee.Drains.{contents, IsFine}
use madder.Multi.Tee.Commits.{Ends, first_close, run-commits}
use madder.Multi.Tee.Rewound.{run-rewound}
use madder.Multi.Tee.Transparent.{seen, run-transparent}
use mathlib.Core.List.{map}

abbrev id_of_length : ℕ → MarklId
id_of_length n = record { format = codes "sha256"; digest = n ∷ [] }

-- A sink that digests by length, and an expected id of three bytes.
abbrev setting : Setting
setting = record {
  expected = some (id_of_length 3);
  source_close_error = none;
  sink_close_error = none;
  sink_id = λ bytes. some (id_of_length (length bytes));
  adds_foreign = true;
}

abbrev source : List Answer
source =
    record { bytes = 7 ∷ 8 ∷ []; outcome = fine } ∷ record { bytes = 9 ∷ []; outcome = fine } ∷ []

source-IsFine : All IsFine source
source-IsFine = (refl, (refl, tt))

-- The caller's writer refuses the second part.
abbrev calls : List Call
calls = read_call ∷ write_to_call (refused 0 5 ∷ []) ∷ close_call ∷ close_call ∷ []

run-closes_example :
    Counted true (run setting calls (new_tee_blob_reader source (true ∷ false ∷ []))).0
run-closes_example = run-closes setting calls source (true ∷ false ∷ [])

run-commits_example :
    Ends setting (contents source) (run setting calls (new_tee_blob_reader source []))
    × ((run setting calls (new_tee_blob_reader source [])).0.sink_closes ≡ 1)
run-commits_example = run-commits setting calls source refl (tt, (tt, (tt, (tt, tt)))) source-IsFine

-- One sink takes all, the other nothing.
run-transparent_example :
    map seen (run setting calls (new_tee_blob_reader source [])).1
    ≡ map seen (run setting calls (new_tee_blob_reader source (false ∷ []))).1
run-transparent_example = run-transparent setting setting calls source [] (false ∷ [])

abbrev rewound : TeeBlobReader × List Reply
rewound =
    run setting (write_to_call [] ∷ seek_call source ∷ close_call ∷ [])
      (new_tee_blob_reader source [])

run-rewound_example : Ends setting (contents source ++ contents source) rewound
run-rewound_example = run-rewound setting source source-IsFine

-- The Close of the rewound reader reports the six bytes.
rewound_mismatch : first_close rewound.1 ≡ some (digest_mismatch ∷ [])
unfolding run call write_to write_loop tee_bytes flush_and_commit commit check_digest
    new_tee_blob_reader equal_bytes compare_bytes
rewound_mismatch = refl

-- The sink that refuses its second write keeps the first.
abbrev refusing : TeeBlobReader
refusing = (run setting calls (new_tee_blob_reader source (true ∷ false ∷ []))).0

refusing_prefix : refusing.written ≡ 7 ∷ 8 ∷ []
unfolding run call read write_to write_loop tee_bytes flush_and_commit commit check_digest
    new_tee_blob_reader
refusing_prefix = refl
