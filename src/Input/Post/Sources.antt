-- ===== src/Input/Post/Sources.antt =====
-- The errors of src/input/post.rs as errors with a `source()`.
use rouille.Input.Post.{
  PostError, PostFieldError, io_error, wrong_data_type_int, wrong_data_type_float, field,
  describe_error, describe_field_error,
}
use rouille.Logging.ErrorChain.{AnError, Source, error, no_source, source}

-- The errors of other crates, as they stand behind those of this one.
module _ {I F : Type 0} (io : AnError) (int : I → AnError) (float : F → AnError) where
  unfoldable pub field_source : PostFieldError I F → Source
  field_source io_error = source io
  field_source (wrong_data_type_int e) = source (int e)
  field_source (wrong_data_type_float e) = source (float e)
  field_source _ = no_source

  unfoldable pub post_source : PostError I F → Source
  unfolding field_source describe_field_error
  post_source io_error = source io
  post_source (field name e) = source (error (describe_field_error e) (field_source e))
  post_source _ = no_source

  unfoldable pub as_error : PostError I F → AnError
  unfolding post_source describe_error
  as_error e = error (describe_error e) (post_source e)
