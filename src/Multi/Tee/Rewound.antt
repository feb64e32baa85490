-- ===== src/Multi/Tee/Rewound.antt =====
-- A tee whose caller rewinds it.
use madder.Common.{◌≡◌, refl, sym, ap, ◌∙◌, List, [], ◌∷◌, ◌++◌, append-nil}
use madder.Common.{false, All}
use madder.Multi.Tee.{
  Answer, Setting, new_tee_blob_reader, write_to, write_to_call, seek_call, close_call, call, run,
}
use madder.Multi.Tee.Effects.{write_to-keeps}
use madder.Multi.Tee.Closing.{call-Counted}
use madder.Multi.Tee.Drains.{contents, IsFine, Carries, step-Carries, write_loop-drains}
use madder.Multi.Tee.Commits.{Ends, close-Ends}

module _ (setting : Setting) where
  -- A source without errors that is read to its end through the tee, rewound to give the same again,
  -- and closed: the sink, which takes all writes, holds the contents twice, and it is the id of the
  -- doubled contents that Close compares with the expected one.
  pub run-rewound :
      (src : List Answer)
      → All IsFine src
      → Ends setting (contents src ++ contents src) (
          run setting
            (write_to_call [] ∷ seek_call src ∷ close_call ∷ [])
            (new_tee_blob_reader src []))
  unfolding run call new_tee_blob_reader
  run-rewound src fines =
      let t = new_tee_blob_reader src [] in
      let read_through = (write_to [] t).0 in
      let start : Carries (contents src) t = record {
        adds_up = refl;
        taking = refl;
        alive = refl;
        fines = fines;
        unmapped = refl;
      } in
      let first =
        write_to-keeps (Carries (contents src)) (step-Carries (contents src)) [] t start in
      let at_end : read_through.src ≡ [] =
        unfold write_to in write_loop-drains src 0 t fines refl in
      let all_written : read_through.written ≡ contents src =
        sym (append-nil read_through.written)
        ∙ ap (λ l. read_through.written ++ contents l) (sym at_end)
        ∙ first.adds_up in
      let ends =
        close-Ends setting (contents src ++ contents src) [] (record read_through { src = src }) tt
          (record {
            adds_up = ap (λ w. w ++ contents src) all_written;
            taking = first.taking;
            alive = first.alive;
            fines = fines;
            unmapped = first.unmapped;
          })
          (call-Counted setting false (seek_call src) read_through (
            call-Counted setting false (write_to_call []) t
              (record { done = refl; src_closes = refl; sink_closes = refl }))) in
      record { committed = ends.committed; answer = ends.answer }
