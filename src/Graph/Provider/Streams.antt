-- ===== src/Graph/Provider/Streams.antt =====
-- `GraphProvider.sync_streams` and `request_sweep` of src/mailflow/adapters/graph/provider.py: which streams a
-- pass of the pipeline visits.
use mailflow.Base.{
  false, ◌||◌, Text, Option, [], count, add_all, add_all-Held, ◌≡◌, refl, if◌then◌else◌,
}
use mailflow.Core.Models.{StreamRef}
use mailflow.Core.Streams.{stream_eq, stream_Eq}
use mailflow.Graph.Provider.{State, has_stream, streams_for, sync_streams}

-- A pass visits a stream once if a notification waits for it or a sweep of it was asked for, and not at
-- all else.
pub sync_streams-once :
    (resolver : Option (Text → Option StreamRef)) (s : State) (t : StreamRef)
    → count (stream_eq t) (sync_streams resolver s) ≡ (
        if has_stream t (streams_for resolver s.pending) || has_stream t s.sweep_streams
        then 1
        else 0)
unfolding sync_streams
sync_streams-once resolver s t =
    (add_all-Held t (has_stream t (streams_for resolver s.pending))
      (add_all [] (streams_for resolver s.pending)) s.sweep_streams
      (add_all-Held t false [] (streams_for resolver s.pending) (refl, refl))).1
