-- ===== src/Pipeline/GzipJob.antt =====
-- A gzip job over two files or more.
use collapsar.Base.{
  ℕ, ◌≡◌, refl, ap, subst, ◌∙◌, true, false, Bool-cases, inl, inr, Bytes, List, [], ◌∷◌, text,
}
use collapsar.Core.Status.{Error, Result, ok, err, code_of, make_error, format_error}
use collapsar.Core.Action.{Action, seq_ok, ◌>>◌, ◌>>=◌}
use collapsar.Core.Triple.{After, Triple, seq-Triple}
use collapsar.Io.Stream.{write}
use collapsar.Io.Disk.{Disk}
use collapsar.Core.Blocks.{FileEntry, CompressedBlock, PreparedFile}
use collapsar.Codec.Factory.{CodecBundle}
use collapsar.Gzip.Writer.{GzipWriter, write_bytes, write_blocks, header, trailer}
use collapsar.Gzip.Writer as GzipMethods
use collapsar.Pipeline.Router.{SizeRouter}
use collapsar.Pipeline.Writer.{gzip_writer, on_gzip, write_file}
use collapsar.Pipeline.Run.{
  Env, Drain, after_write, start_file, complete_file, drain_file, drain_files, drain_all, wait_for,
  submit_files, begin_output, process,
}

-- What is written keeps the mark of a file.
abbrev HasOne : GzipWriter → Type 0
HasOne w = w.wrote_one ≡ true

Marks : Action GzipWriter (Unit {0}) → Type 0
Marks m = Triple HasOne m (λ _. HasOne) HasOne

write_bytes-Marks : (bytes : Bytes) → Marks (write_bytes bytes)
unfolding Marks write_bytes
write_bytes-Marks bytes = record {
  holds = λ w one. elim (Bool-cases (write bytes w.stream).good) [
    | inl good ↦ rw good one
    | inr bad ↦ rw bad one
  ];
}

write_blocks-Marks : (blocks : List CompressedBlock) → Marks (write_blocks blocks)
unfolding Marks write_blocks
write_blocks-Marks [] = record { holds = λ w one. one }
write_blocks-Marks (b ∷ bs) = seq-Triple (write_bytes-Marks b.bytes) (write_blocks-Marks bs)

marked :
    (r : Result (Unit {0}) × GzipWriter) (w : GzipWriter)
    → After (λ _. HasOne) HasOne r
    → r ≡ (ok tt, w)
    → HasOne w
marked (ok _, v) w one is = let same : v ≡ w = ap (λ p. p.1) is in subst HasOne same one
marked (err e, v) w one is = cc

write_file-marked :
    (file : PreparedFile) (w w' : GzipWriter)
    → GzipMethods.write_file file w ≡ (ok tt, w')
    → HasOne w'
unfolding Marks GzipMethods.write_file
write_file-marked file w w' is = elim (Bool-cases w.wrote_one) [
  | inl again ↦ cc
  | inr first ↦
      let keeps =
        seq-Triple (write_bytes-Marks (header file))
          (seq-Triple (write_blocks-Marks file.blocks) (write_bytes-Marks (trailer file))) in
      marked _ w' (keeps.holds (record w { wrote_one = true }) refl) (rw first at is)
]

abbrev one_stream : Error
one_stream =
    make_error format_error (text "Gzip is a single-stream format; combine inputs into a tar first")

write_file-again :
    (file : PreparedFile) (w : GzipWriter)
    → HasOne w
    → GzipMethods.write_file file w ≡ (err one_stream, w)
unfolding GzipMethods.write_file
write_file-again file w one = rw one refl

module _ {ℓ} {S A B : Type ℓ} where
  seq_err :
      (m : Action S A) (k : Action S B) (s : S) {e : Error} {t : S}
      → m s ≡ (err e, t)
      → (m >> k) s ≡ (err e, t)
  unfolding ◌>>◌ ◌>>=◌
  seq_err m k s is = rw is

drained_one :
    (disk : Disk) (router : SizeRouter) (f : PreparedFile) (d : Drain) (w w' : GzipWriter)
    (r : Result (Unit {0}))
    → d.writer ≡ gzip_writer w
    → GzipMethods.write_file f w ≡ (r, w')
    → drain_file disk router f d ≡ after_write f (start_file router f d) (r, gzip_writer w')
unfolding drain_file write_file start_file
drained_one disk router f d w w' r is wrote =
    let started = start_file router f d in
    ap (λ v. after_write f started (write_file disk f v)) is
    ∙ ap (λ x. after_write f started (on_gzip x)) wrote

module _ (env : Env) (router : SizeRouter) (free : (k : ℕ) → env.stop.writing k ≡ false) where
  drain_two :
      (f g : PreparedFile) (futures : List (Result PreparedFile)) (d : Drain) (w w' : GzipWriter)
      → d.writer ≡ gzip_writer w
      → GzipMethods.write_file f w ≡ (ok tt, w')
      → (left : Drain) × (drain_files env.disk router env.stop 0 (ok f ∷ ok g ∷ futures) d
          ≡ (err one_stream, left))
        × (left.writer ≡ gzip_writer w')
  unfolding drain_files start_file complete_file
  drain_two f g futures d w w' is wrote =
      let again = write_file-again g w' (write_file-marked f w w' wrote) in
      let next = record (complete_file f (start_file router f d)) { writer = gzip_writer w' } in
      (
        record (start_file router g next) { writer = gzip_writer w' },
        rw (free 0) (
            seq_ok (wait_for env.disk router (ok f)) _ d
              (drained_one env.disk router f d w w' (ok tt) is wrote)
            ∙ rw (free 1) (
                seq_err (wait_for env.disk router (ok g)) _ next
                  (drained_one env.disk router g next w' w' (err one_stream) refl again))),
        refl,
      )

  -- A gzip job whose files are all submitted, whose output can be begun, whose first two file
  -- tasks succeed, whose first file is written and that nobody cancels while the files are written
  -- answers FormatError, and leaves the writer as the first file left it: the output is not
  -- finished.
  pub process-gzip_writer :
      (block_bytes : ℕ) (codecs : CodecBundle) (entries : List FileEntry) (d begun : Drain)
      (w w' : GzipWriter) (f g : PreparedFile) (futures : List (Result PreparedFile))
      → submit_files env block_bytes codecs router 0 entries ≡ ok (ok f ∷ ok g ∷ futures)
      → begin_output env.disk d ≡ (ok tt, begun)
      → begun.writer ≡ gzip_writer w
      → GzipMethods.write_file f w ≡ (ok tt, w')
      → let (r, left) = process env block_bytes codecs router entries d in
        (code_of r ≡ format_error) × (left.writer ≡ gzip_writer w')
  unfolding process
  process-gzip_writer block_bytes codecs entries d begun w w' f g futures tasks begins is wrote =
      let (left, fails, kept) = drain_two f g futures begun w w' is wrote in
      let whole : process env block_bytes codecs router entries d ≡ (err one_stream, left) =
        seq_ok (begin_output env.disk) _ d begins
        ∙ seq_err _ _ begun (ap (λ t. drain_all env.disk router env.stop t begun) tasks ∙ fails) in
      (ap (λ x. code_of x.0) whole, ap (λ x. x.1.writer) whole ∙ kept)
