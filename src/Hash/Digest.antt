-- ===== src/Hash/Digest.antt =====
-- src/file/hashUtils.cpp: the file is hashed in pieces of 4096 bytes, which makes no difference.
use ai_optimized_distributed.Base.{
  none, Option, ◌≡◌, ◌≢◌, refl, subst, sym, some, List, [], ◌∷◌, Bytes, arith, Option-cases, inl,
  inr,
}
use ai_optimized_distributed.Disk.{Disk, open_in}
use ai_optimized_distributed.Disk.Blocks.{concat, concat-blocks}
use ai_optimized_distributed.Base.Stream.{NoSpace}
use ai_optimized_distributed.Hash.Hex.{bytes_to_hex-NoSpace, bytes_to_hex_nonempty}
use ai_optimized_distributed.Hash.{
  Evp, EvpLaws, hash_buffer_size, update_all, bytes_to_hex, ◌>>=◌, compute_file_sha256,
  compute_string_sha256,
}

pub compute_file_sha256-none :
    (evp : Evp) (d : Disk) (path : Bytes)
    → open_in d path ≡ none
    → compute_file_sha256 evp d path ≡ none
unfolding compute_file_sha256
compute_file_sha256-none evp d path e = rw e

module _ (evp : Evp) (laws : EvpLaws evp) where
  update_all-concat :
      (c : evp.Context) (bs : List Bytes) → update_all evp c bs ≡ evp.digest_update c (concat bs)
  unfolding update_all
  update_all-concat c [] = sym (laws.update_nil c)
  update_all-concat c (b ∷ bs) = elim (Option-cases (evp.digest_update c b)) [
    | inl e ↦ rw (laws.update-append c b (concat bs), e)
    | inr (c', e) ↦ rw (laws.update-append c b (concat bs), e) (update_all-concat c' bs)
  ]

  -- The hash of a file that can be read is the hash of its contents taken as one string: the same
  -- text, or a failure of both.
  pub compute_file_sha256-string :
      (d : Disk) (file_path s : Bytes)
      → open_in d file_path ≡ some s
      → compute_file_sha256 evp d file_path ≡ compute_string_sha256 evp s
  unfolding compute_file_sha256 compute_string_sha256
  compute_file_sha256-string d file_path s e =
      rw e (simp (update_all-concat, concat-blocks hash_buffer_size s (omega arith)))

  -- The text of a digest is one word, so it can be a field of a message.
  pub compute_string_sha256-IsWord :
      (s h : Bytes) → compute_string_sha256 evp s ≡ some h → (h ≢ []) × NoSpace h
  unfolding compute_string_sha256
  compute_string_sha256-IsWord s h e = begin_word evp.new_context e
    where
      final_word :
          (c : evp.Context) (o : Option Bytes)
          → evp.digest_final c ≡ o
          → (o >>= λ digest. some (bytes_to_hex digest)) ≡ some h
          → (h ≢ []) × NoSpace h
      final_word c none f e = absurd (cc e)
      final_word c (some digest) f e =
          let same : bytes_to_hex digest ≡ h = cc e in
          (
            subst (λ x. x ≢ []) same
                (bytes_to_hex_nonempty digest (laws.final_nonempty c digest f)),
            subst NoSpace same (bytes_to_hex-NoSpace digest),
          )

      update_word :
          (o : Option evp.Context)
          → (o >>= λ c. evp.digest_final c >>= λ digest. some (bytes_to_hex digest)) ≡ some h
          → (h ≢ []) × NoSpace h
      update_word none e = absurd (cc e)
      update_word (some c) e = final_word c (evp.digest_final c) refl e

      init_word :
          (o : Option evp.Context)
          → (o >>= λ c. evp.digest_update c s >>= λ c'.
              evp.digest_final c' >>= λ digest. some (bytes_to_hex digest))
            ≡ some h
          → (h ≢ []) × NoSpace h
      init_word none e = absurd (cc e)
      init_word (some c) e = update_word (evp.digest_update c s) e

      begin_word :
          (o : Option evp.Context)
          → (o >>= λ x. evp.digest_init x >>= λ c. evp.digest_update c s >>= λ c'.
              evp.digest_final c' >>= λ digest. some (bytes_to_hex digest))
            ≡ some h
          → (h ≢ []) × NoSpace h
      begin_word none e = absurd (cc e)
      begin_word (some x) e = init_word (evp.digest_init x) e
