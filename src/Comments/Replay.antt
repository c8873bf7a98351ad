-- ===== src/Comments/Replay.antt =====
-- What a client that sends a comment twice gets: src/modules/comments/application/commands/add-comment.handler.ts.
