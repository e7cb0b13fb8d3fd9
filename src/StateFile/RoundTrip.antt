-- ===== src/StateFile/RoundTrip.antt =====
-- src/peer/peer.cpp: a saved state is loaded as it was.
use ai_optimized_distributed.Base.{
  ℕ, zero, suc, ◌+◌, ◌^◌, ◌≤◌, ◌<◌, ◌≡◌, ◌≢◌, refl, ap, sym, ◌∙◌, true, some, List, [], ◌∷◌, ◌++◌,
  append_assoc, append-nil, Bytes, arith, length, length-append, set, ltb,
}
use ai_optimized_distributed.Base.Decimal.{pos, to_string_ℕ, read_int-to_string, read_int}
use ai_optimized_distributed.Base.Stream.{NoSpace, read_word-space}
use ai_optimized_distributed.Disk.{
  Disk, put, MayRead, MayWrite, open_in-some, open_out-put, write-put, files-put_self,
  permissions-put,
}
use ai_optimized_distributed.Disk.Blocks.{concat}
use ai_optimized_distributed.Peer.{PeerConfig}
use ai_optimized_distributed.Status.{
  ChunkDownloadStatus, not_started, in_progress, done, failed, chunk_status_to_string,
}
use ai_optimized_distributed.Status.Tables.{string_to_chunk_status-to_string}
use ai_optimized_distributed.StateFile.{
  get_download_state_path, load_loop, load_download_state, insertions, insert_all,
  save_download_state,
}

status_word :
    (s : ChunkDownloadStatus) → (chunk_status_to_string s ≢ []) × NoSpace (chunk_status_to_string s)
unfolding chunk_status_to_string
status_word not_started = (
  λ e. cc e,
  (refl, (refl, (refl, (refl, (refl, (refl, (refl, (refl, (refl, (refl, (refl, tt))))))))))),
)
status_word in_progress = (
  λ e. cc e,
  (refl, (refl, (refl, (refl, (refl, (refl, (refl, (refl, (refl, (refl, (refl, tt))))))))))),
)
status_word done = (λ e. cc e, (refl, (refl, (refl, (refl, tt)))))
status_word failed = (λ e. cc e, (refl, (refl, (refl, (refl, (refl, (refl, tt)))))))

set-append :
    (pre post : List ChunkDownloadStatus) (x s : ChunkDownloadStatus)
    → set (pre ++ x ∷ post) (length pre) s ≡ (pre ++ s ∷ []) ++ post
set-append [] post x s = refl
set-append (y ∷ pre) post x s = ap (λ t. y ∷ t) (set-append pre post x s)

load_loop-newline :
    (fuel total : ℕ) (s : Bytes) (ss : List ChunkDownloadStatus)
    → load_loop fuel total (b'\n' ∷ s) ss ≡ load_loop fuel total s ss
unfolding load_loop read_int
load_loop-newline zero total s ss = refl
load_loop-newline (suc fuel) total s ss = refl

-- One line of the file.
load_loop-line :
    (fuel total i : ℕ) (s : ChunkDownloadStatus) (rest : Bytes) (ss : List ChunkDownloadStatus)
    → i < total
    → total ≤ 2 ^ 31
    → load_loop
        (suc fuel)
        total
        (to_string_ℕ i ++ (32 ∷ (chunk_status_to_string s ++ (b'\n' ∷ rest))))
        ss
      ≡ load_loop fuel total rest (set ss i s)
unfolding load_loop
load_loop-line fuel total i s rest ss h k =
    let (w, w') = status_word s in
    let inside : ltb i total ≡ true = ground arith in
    rw
      (
        load_loop,
        read_int-to_string i (32 ∷ (chunk_status_to_string s ++ (b'\n' ∷ rest))) (omega arith) refl,
        read_word-space (chunk_status_to_string s) (b'\n' ∷ rest) w w' refl,
        inside,
        string_to_chunk_status-to_string s,
      )
      (load_loop-newline fuel total rest (set ss i s))

-- What the insertions write.
insertions-cons :
    (i : ℕ) (s : ChunkDownloadStatus) (ss : List ChunkDownloadStatus)
    → concat (insertions i (s ∷ ss))
      ≡ to_string_ℕ i
        ++ (32 ∷ (chunk_status_to_string s ++ (b'\n' ∷ concat (insertions (i + 1) ss))))
unfolding insertions
insertions-cons i s ss = refl

insertions-nil : (i : ℕ) → concat (insertions i []) ≡ []
unfolding insertions
insertions-nil i = refl

load_loop-nil : (fuel total : ℕ) (ss : List ChunkDownloadStatus) → load_loop fuel total [] ss ≡ ss
unfolding load_loop read_int
load_loop-nil zero total ss = refl
load_loop-nil (suc fuel) total ss = refl

load_loop-insertions :
    (fuel total : ℕ) (pre post ss : List ChunkDownloadStatus)
    → length ss ≤ fuel
    → length post ≡ length ss
    → length pre + length ss ≡ total
    → total ≤ 2 ^ 31
    → load_loop fuel total (concat (insertions (length pre) ss)) (pre ++ post) ≡ pre ++ ss
load_loop-insertions fuel total pre [] [] h e f k =
    ap (λ t. load_loop fuel total t (pre ++ [])) (insertions-nil (length pre))
    ∙ load_loop-nil fuel total (pre ++ [])
load_loop-insertions fuel total pre [] (s ∷ ss) h e f k = absurd (omega arith)
load_loop-insertions fuel total pre (x ∷ post) [] h e f k = absurd (omega arith)
load_loop-insertions zero total pre (x ∷ post) (s ∷ ss) h e f k = absurd (omega arith)
load_loop-insertions (suc fuel) total pre (x ∷ post) (s ∷ ss) h e f k =
    let pre' = pre ++ s ∷ [] in
    let longer : length pre + 1 ≡ length pre' = omega (arith, length-append pre (s ∷ [])) in
    ap (λ t. load_loop (suc fuel) total t (pre ++ x ∷ post)) (insertions-cons (length pre) s ss)
    ∙ load_loop-line fuel total (length pre) s (concat (insertions (length pre + 1) ss))
        (pre ++ x ∷ post) (omega arith) k
    ∙ ap (load_loop fuel total (concat (insertions (length pre + 1) ss))) (set-append pre post x s)
    ∙ ap (λ n. load_loop fuel total (concat (insertions n ss)) (pre' ++ post)) longer
    ∙ load_loop-insertions fuel total pre' post ss (omega arith) (omega arith) (omega arith) k
    ∙ append_assoc pre (s ∷ []) ss

-- The insertions all arrive in the file.
insert_all-concat :
    (path : Bytes) (d : Disk) (t : Bytes) (bs : List Bytes)
    → MayWrite d.permissions path
    → d.files path ≡ some t
    → ((insert_all path d bs).files path ≡ some (t ++ concat bs))
      × ((insert_all path d bs).permissions ≡ d.permissions)
unfolding insert_all
insert_all-concat path d t [] w f = (f ∙ ap some (sym (append-nil t)), refl)
insert_all-concat path d t (b ∷ bs) w f =
    let d' = put d path (some (t ++ b)) in
    let same = permissions-put d path (some (t ++ b)) in
    let (held, kept) =
      insert_all-concat path d' (t ++ b) bs (rw same w) (files-put_self d path (some (t ++ b))) in
    rw (insert_all, write-put d path b t w f)
      (held ∙ ap some (append_assoc t b (concat bs)), kept ∙ same)

-- The file is at least as long as it has lines.
insertions-long :
    (i : ℕ) (ss : List ChunkDownloadStatus) → length ss ≤ length (concat (insertions i ss))
insertions-long i [] = omega arith
insertions-long i (s ∷ ss) = omega (
  arith,
  insertions-long (i + 1) ss,
  ap length (insertions-cons i s ss),
  length-append (to_string_ℕ i)
      (32 ∷ (chunk_status_to_string s ++ (b'\n' ∷ concat (insertions (i + 1) ss)))),
  length-append (chunk_status_to_string s) (b'\n' ∷ concat (insertions (i + 1) ss)),
)

load-saved :
    (config : PeerConfig) (d : Disk) (file_id s : Bytes) (ss : List ChunkDownloadStatus) (n : ℕ)
    → MayRead d.permissions (get_download_state_path config file_id)
    → d.files (get_download_state_path config file_id) ≡ some s
    → load_download_state config d file_id ss (pos (suc n))
      ≡ (true, load_loop (length s) (suc n) s ss)
unfolding load_download_state
load-saved config d file_id s ss n a f =
    rw (load_download_state, open_in-some d (get_download_state_path config file_id) s a f, f) refl

-- A state that is saved is loaded as it was, whatever statuses the loader starts from: if the state
-- file may be written and read, there are between 1 and 2^31 chunks, and the loader starts from as
-- many statuses, then both calls succeed and the loaded statuses are the saved ones.
pub load_download_state-save_download_state :
    (config : PeerConfig) (d : Disk) (file_id : Bytes)
    (chunk_status start : List ChunkDownloadStatus)
    → MayWrite d.permissions (get_download_state_path config file_id)
    → MayRead d.permissions (get_download_state_path config file_id)
    → 0 < length chunk_status
    → length chunk_status ≤ 2 ^ 31
    → length start ≡ length chunk_status
    → ((save_download_state config d file_id chunk_status).0 ≡ true)
      × (load_download_state config
            (save_download_state config d file_id chunk_status).1
            file_id
            start
            (pos (length chunk_status))
          ≡ (true, chunk_status))
unfolding save_download_state
load_download_state-save_download_state config d file_id [] start w a h k e = absurd (omega arith)
load_download_state-save_download_state config d file_id (s ∷ ss) start w a h k e =
    let path = get_download_state_path config file_id in
    let d' = put d path (some []) in
    let bs = insertions 0 (s ∷ ss) in
    let same = permissions-put d path (some []) in
    let (held, kept) =
      insert_all-concat path d' [] bs (rw same w) (files-put_self d path (some [])) in
    let loaded =
      load-saved config (insert_all path d' bs) file_id (concat bs) start (length ss)
        (rw (kept, same) a) held in
    let whole =
      load_loop-insertions (length (concat bs)) (length (s ∷ ss)) [] start (s ∷ ss)
        (insertions-long 0 (s ∷ ss)) e (omega arith) k in
    rw (save_download_state, open_out-put d path w) (refl, loaded ∙ ap (λ x. (true, x)) whole)
