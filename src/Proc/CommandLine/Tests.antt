-- ===== src/Proc/CommandLine/Tests.antt =====
-- A command line with a space, a quote, operators and an empty argument.
