-- ===== src/Lib.antt =====
-- The LiveKit SIP bridge with video: calls between SIP endpoints and LiveKit rooms.
--
-- A call has signaling (pkg/sip/inbound.go for calls that come in, pkg/sip/outbound.go for those that
-- the bridge makes, both on pkg/sip/protocol.go) and media. Audio from RTP passes
-- the silence filler, a codec and the mixer of a room; the signal logger watches a stream. Video is
-- H.264 between an RTP session, which the SDP exchange sets up, and a compositor. The modelled parts
-- are those that decide, count and transform.
--
-- Files and the code they model:
--   Prelude, Prelude/Tests, Prelude/Lists, Prelude/Int: names, Boolean tests, lists and integers.
--   Text, Text/Laws, Text/Decimal, Text/Cut, Text/Trim: Go strings as bytes, with the functions of strings and strconv that are used.
--   Audio/Silence: pkg/sip/silence_filler.go. SilenceFiller is the struct, handle_rtp HandleRTP.
--   Audio/Signal: pkg/sip/signal_logger.go. observe is the part of WriteSample that changes state.
--   Audio/Opus: pkg/media/opus/opus.go. write_sample and decode_sample are the two WriteSample.
--   Video/Sdp, Video/Sdp/Select, Video/Sdp/Offer: pkg/sip/video_sdp.go, function by function.
--   Video/Keyframe: isH264Keyframe of pkg/sip/video.go.
--   Video/Writer: h264RTPWriter and gatedVideoWriter of pkg/sip/video.go.
--   Server/Invites: getInvite, handleInviteAuth, scheduleAuthChallengeTimeout and countInvite of
--     pkg/sip/inbound.go.
--   Server/Inbound: sipInbound of pkg/sip/inbound.go; accept is Accept with its retransmissions, whose
--     outcomes are an argument.
--   Server/Pin: pinPrompt of pkg/sip/inbound.go, over a list of what it waits for.
--   Calls/State: CallState of pkg/sip/analytics.go. Calls/Monitor: CallMonitor of
--     pkg/stats/monitor.go; apply is a method, chosen by a value of Op.
--   Media/Latency: LatencyStats of pkg/sip/media_latency.go; step_thread is one atomic operation.
--   Media/Stream: rtpStreamStats of pkg/sip/media.go. Media/Udp: udpConn of
--     pkg/sip/media_port.go.
--   Client/Response, Client/Invite, Client/Dialog, Client/Refer: sipResponse and sipOutbound of
--     pkg/sip/outbound.go; make_invite is Invite, dial stands for it among the operations of a dialog.
--   Protocol/Status, Protocol/Notify, Protocol/Refer: pkg/sip/protocol.go, with the wait for the end of a
--     transfer from pkg/sip/outbound.go.
--   Client/Failure: pkg/sip/errors.go. Client/Call, Client/Call/Dialing: outboundCall of
--     pkg/sip/outbound.go; dial_async is Dial and then WaitClose.
--   Server/Call, Server/Call/Waiting, Server/Call/Handling: inboundCall of pkg/sip/inbound.go; handle_invite
--     is handleInvite, with what happens around the call in a value of Surroundings.
--   Calls/Status: the statuses of pkg/sip/participant.go and pkg/stats/termination.go.
--   Protocol/Reason: ReasonHeader of pkg/sip/protocol.go.
--   Server/Offer: sanitizeSDPCryptoSessionParams of pkg/sip/inbound.go, on the bytes of an offer.
--   Server/Process: processInvite, onAck, onBye and onNotify of pkg/sip/inbound.go.
--   Service/Transfers: transferSIPParticipant of pkg/sip/service.go; finish_transfer is the end of its process
--     and receive one of the requests that wait.
--   Client/Participant: createSIPParticipant and onBye of pkg/sip/client.go.
-- The modules below these hold the proofs; the Tests modules hold runs at concrete inputs.
--
-- State is passed explicitly: an operation takes the struct and returns it, beside its result. What
-- the code calls in other packages is a parameter on a state of its own: sinks, codecs, payloaders,
-- the SDP library, the digest library, floating-point numbers. An error is a value, Option or a sum.
-- Times are numbers of nanoseconds. Counters and RTP fields wrap at their width.
--
-- Fuel: the loop of the Opus encoder runs on one more than the length of its buffer, and a frame has
-- at least one sample; the loop of the keyframe test runs on the length of the data, and each round
-- drops a start code. Both are shown to be enough. The tries to send a 200 and those of an INVITE are
-- counted down from the limits of the source. A wait takes its events from a list; when the list ends the
-- wait goes on, which is an outcome of its own.
--
-- Not modelled: log lines, tracing and metrics exports; sockets, SIP transactions and the SIP stack,
-- what it does with a cancelled BYE or REFER included;
-- the LiveKit SDK and the GStreamer compositor; the attributes of a participant, statistics, tones and
-- prompts; the parsing of Reason headers, whose result is an argument; start-up and configuration; text beyond ASCII in case
-- folding and white space.
pub mod Prelude
pub mod Text
pub mod Audio
pub mod Video
pub mod Server
pub mod Service
pub mod Calls
pub mod Media
pub mod Client
pub mod Protocol
